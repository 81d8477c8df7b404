-- ===== src/Checks/PairingRuns.antt =====
-- Runs of internal/pairing.
use quackridge.Prelude.{◌≤◌, ◌≡◌, if◌then◌else◌, refl, false, some, [], ◌∷◌}
use quackridge.Prelude.Text.{lit, text_eq}
use quackridge.Prelude.Lists.{contains}
use quackridge.Protocol.Identity.{current_identity}
use quackridge.Pairing.{Server, Request, granted, refused, handle, serve, redeem}
use quackridge.Pairing.Once.{grants, grants-serve}

abbrev server : Server
server = record {
  nonce = lit "n1";
  expires_at = 100;
  consumed = false;
  origins = lit "https://app" ∷ [];
  response = record {
    endpoint = lit "quack://127.0.0.1:9494";
    identity = current_identity (lit "1.0.0");
    token = lit "t";
  };
}

abbrev good : Request
good = record {
  origin = lit "https://app";
  method = lit "POST";
  private_network = [];
  nonce = some (lit "n1");
}

-- The second of two good requests is refused with 409, and one after the expiry with 410.
replay :
    (serve server ((10, good) ∷ (11, good) ∷ [])).1
    ≡ granted server.response ∷ refused 409 (lit "pairing nonce was already used") ∷ []
unfolding serve handle contains text_eq lit redeem
replay = refl

expired : (handle server 101 good).1 ≡ refused 410 (lit "pairing nonce expired")
unfolding handle contains text_eq lit redeem
expired = refl

grants-serve_example :
    grants (serve server ((10, good) ∷ (11, good) ∷ [])).1 ≤ (if server.consumed then 0 else 1)
grants-serve_example = grants-serve server ((10, good) ∷ (11, good) ∷ [])
