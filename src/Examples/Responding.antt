-- ===== src/Examples/Responding.antt =====
-- A wallet's response, from its routing token to the answer.
use eudi_verifier_core.Prelude.{[], ◌≡◌, inl, arith, bytes}
use eudi_verifier_core.Errors.{ok, err, plain}
use eudi_verifier_core.RespondTokens.{Tokens}
use eudi_verifier_core.Wallet.{Router, wallet_response}
use eudi_verifier_core.Wallet.Responses.{
  IsAccepted, Backed, wallet_response-Backed, wallet_response-untouched,
}
use eudi_verifier_core.Examples.Wallet.{lib, session}
use eudi_verifier_core.Examples.Answers.{app, answered}

-- A client that knows the one session id of this example.
abbrev tokens : Tokens
tokens = record { prefix = "dev:"; text = λ raw. "s1" }

abbrev router : Router Unit
router = record {
  app = app lib;
  sentinel = λ s. plain [];
  max_response_body = 1048576;
  resolve = λ token w. ok "s1";
  load = λ id w. ok session;
  mark_served = λ id w. (err (plain []), w);
  consume_once = λ id w. (ok session, w);
  request_object_jwt = λ sess. ok [];
  error_response = λ e. (500, []);
}

accepted_response : IsAccepted (wallet_response router "t" (bytes "body") "" tt).0
unfolding wallet_response
accepted_response = rw (answered tt) tt

wallet_response-Backed_example : Backed router "t" (bytes "body") "" tt
wallet_response-Backed_example =
    wallet_response-Backed router "t" (bytes "body") "" tt accepted_response

-- A router with a bound of three bytes.
abbrev narrow : Router Unit
narrow = record router { max_response_body = 3 }

wallet_response-untouched_example :
    ((wallet_response narrow "t" (bytes "body") "" tt).1 ≡ tt)
    × (IsAccepted (wallet_response narrow "t" (bytes "body") "" tt).0 → ⊥)
wallet_response-untouched_example =
    wallet_response-untouched narrow "t" (bytes "body") "" tt (inl (omega arith))
