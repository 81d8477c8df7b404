-- ===== src/Pairing/Once.antt =====
-- The token leaves once, to an allowed origin that has the nonce in time.
use quackridge.Prelude.{
  ℕ, ◌+◌, ◌≤◌, ◌≡◌, ◌⊎◌, inl, inr, Bool, true, false, some, List, [], ◌∷◌, arith, ltb,
  if◌then◌else◌, Option-cases,
}
use quackridge.Prelude.Text.{Text, lit, text_eq, text_eq_iff}
use quackridge.Prelude.Lists.{contains}
use quackridge.Pairing.{Server, Request, Reply, granted, redeem, handle, serve}

abbrev pub is_granted : Reply → Bool
is_granted (granted _) = true
is_granted _ = false

abbrev pub grants : List Reply → ℕ
grants [] = 0
grants (r ∷ rest) = (if is_granted r then 1 else 0) + grants rest

redeem_grants :
    (s : Server) (late : Bool) (n : Text)
    → ((is_granted (redeem s late n).1 ≡ true)
        × (n ≡ s.nonce)
        × (late ≡ false)
        × (s.consumed ≡ false)
        × (redeem s late n ≡ (record s { consumed = true }, granted s.response)))
      ⊎ ((is_granted (redeem s late n).1 ≡ false) × ((redeem s late n).0 ≡ s))
unfolding redeem
redeem_grants s late n = ground (arith, text_eq_iff n s.nonce)

-- A request is granted exactly if its origin is allowed, it is a POST, and its nonce is the server's,
-- not expired and not used before; the grant is the server's and uses the nonce up. Any other
-- request leaves the server as it was.
pub handle_grants :
    (s : Server) (now : ℕ) (request : Request)
    → ((is_granted (handle s now request).1 ≡ true)
        × (contains s.origins request.origin ≡ true)
        × (text_eq request.method (lit "POST") ≡ true)
        × (request.nonce ≡ some s.nonce)
        × (now ≤ s.expires_at)
        × (s.consumed ≡ false)
        × (handle s now request ≡ (record s { consumed = true }, granted s.response)))
      ⊎ ((is_granted (handle s now request).1 ≡ false) × ((handle s now request).0 ≡ s))
unfolding handle
handle_grants s now request = elim (Option-cases request.nonce) [
  | inl e ↦ inr (ground arith)
  | inr (n, e) ↦ elim (redeem_grants s (ltb s.expires_at now) n) [
    | inr (x, y) ↦ inr (ground arith)
    | inl (x, y, z, w, v) ↦ ground arith
  ]
]

-- However many requests arrive and in whatever order, at most one is granted, and none once the
-- nonce is used.
pub grants-serve :
    (s : Server) (requests : List (ℕ × Request))
    → grants (serve s requests).1 ≤ (if s.consumed then 0 else 1)
unfolding serve
grants-serve s [] = ground arith
grants-serve s ((now, request) ∷ rest) =
    ground (arith, handle_grants s now request, grants-serve (handle s now request).0 rest)
