-- ===== src/Pairing.antt =====
-- internal/pairing/pairing.go: the one-time exchange that hands a browser the data-plane token.
-- The HTTP layer's view of a request and the JSON decoder's answer are given; `after_expiry` is
-- time.Now().After(s.expiresAt).
pub mod Once
use quackridge.Prelude.{
  ℕ, ◌+◌, refl, Bool, true, false, not, ◌||◌, Option, none, some, List, [], ◌∷◌, ltb, if◌then◌else◌,
}
use quackridge.Prelude.Text.{Text, lit, text_eq, is_empty}
use quackridge.Prelude.Lists.{all, contains}
use quackridge.Errors.Defs.{GoError, foreign}
use quackridge.Prelude.Int.{ℤ, pos, is_not_positive, natural_part}
use quackridge.Protocol.Identity.{Identity, current_identity}

-- Response
pub record Grant : Type 0 where
  pub endpoint : Text
  pub identity : Identity
  pub token : Text

pub record Options : Type 0 where
  pub origins : List Text
  pub ttl : ℤ
  pub endpoint : Text
  pub token : Text

-- Server, less the listener and its goroutines.
pub record Server : Type 0 where
  pub nonce : Text
  pub expires_at : ℕ
  pub consumed : Bool
  pub origins : List Text
  pub response : Grant

-- A request: the headers and the method that handle reads, and the nonce of the body (`none` if it
-- is malformed, has an unknown field or is over 4 KiB).
pub record Request : Type 0 where
  pub origin : Text
  pub method : Text
  pub private_network : Text
  pub nonce : Option Text

pub data Reply : Type 0 where
  refused : (status : ℕ) → Text → Reply
  preflight : (allow_private_network : Bool) → Reply
  granted : Grant → Reply

-- Two minutes.
abbrev pub default_ttl : ℕ
default_ttl = 120000000000

-- Start, up to the listener: the server for a nonce and a time.
unfoldable pub start : (version nonce : Text) → (now : ℕ) → Options → Option GoError × Option Server
start version nonce now options =
    if is_empty options.origins
    then (some (foreign (lit "at least one pairing origin is required")), none)
    else if is_empty options.endpoint || is_empty options.token
    then (some (foreign (lit "pairing endpoint and token are required")), none)
    else (
      none,
      some (record {
        nonce = nonce;
        expires_at =
            now + (if is_not_positive options.ttl then default_ttl else natural_part options.ttl);
        consumed = false;
        origins = options.origins;
        response = record {
          endpoint = options.endpoint;
          identity = current_identity version;
          token = options.token;
        };
      }),
    )

-- The switch under the mutex: the refusal, or the consumed nonce.
unfoldable pub redeem : Server → (after_expiry : Bool) → (nonce : Text) → Server × Reply
redeem s after_expiry nonce =
    if s.consumed
    then (s, refused 409 (lit "pairing nonce was already used"))
    else if after_expiry
    then (s, refused 410 (lit "pairing nonce expired"))
    else if not (text_eq nonce s.nonce)
    then (s, refused 401 (lit "pairing nonce is invalid"))
    else (record s { consumed = true }, granted s.response)

-- handle
unfoldable pub handle : Server → (now : ℕ) → Request → Server × Reply
handle s now request =
    if not (contains s.origins request.origin)
    then (s, refused 403 (lit "origin is not allowed"))
    else if text_eq request.method (lit "OPTIONS")
    then (s, preflight (text_eq request.private_network (lit "true")))
    else if not (text_eq request.method (lit "POST"))
    then (s, refused 405 (lit "method is not allowed"))
    else elim request.nonce [
      | none ↦ (s, refused 400 (lit "malformed pairing request"))
      | some nonce ↦ redeem s (ltb s.expires_at now) nonce
    ]

-- A sequence of requests with their times, in the order in which they take the mutex.
unfoldable pub serve : Server → List (ℕ × Request) → Server × List Reply
serve s [] = (s, [])
serve s ((now, request) ∷ rest) =
    let (s', reply) = handle s now request in
    let (s'', replies) = serve s' rest in (s'', reply ∷ replies)
