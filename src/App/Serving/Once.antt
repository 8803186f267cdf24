-- ===== src/App/Serving/Once.antt =====
-- One accepted response for a session of a running service.
use eudi_verifier_core.Prelude.{String, List, ◌≡◌, refl, ap, ap₂, Bytes, Time}
use eudi_verifier_core.Errors.{Result, ok}
use eudi_verifier_core.Policy.{ClientPolicy}
use eudi_verifier_core.ValkeyStore.{Backend, Store, consume_once}
use eudi_verifier_core.ValkeyStore.Laws.{IsValkey}
use eudi_verifier_core.ValkeyStore.Replay.Traffic.{Traffic}
use eudi_verifier_core.Wallet.{wallet_response}
use eudi_verifier_core.Wallet.Responses.{IsAccepted}
use eudi_verifier_core.Wallet.Single.{ConsumesOf, accepted-once}
use eudi_verifier_core.App.{App}
use eudi_verifier_core.App.Creating.{Seam, Kept, steps, steps-kept}
use eudi_verifier_core.App.Serving.{Handlers, router_of}

module _ {B W : Type 0} (h : Handlers W) where
  -- The routes of a service consume the sessions of its store.
  router_of-ConsumesOf :
      (a : App B W) (b : Backend W) (s : Store)
      → a.valkey ≡ b
      → a.sessions ≡ s
      → ConsumesOf (router_of h a) b s
  unfolding router_of
  router_of-ConsumesOf a b s server store = record {
    now = λ id w. h.clock 0 w;
    wall = λ id w. h.clock 1 w;
    same = λ id w. ap₂ (λ x y. consume_once x y id (h.clock 0 w) (h.clock 1 w) w) server store;
  }

-- On a server that behaves like Valkey and of which no key expires: once a service has accepted a
-- response for a session, it accepts none that routes to the session again, however its parts were
-- swapped since, and whatever happened between, on the store or elsewhere, that leaves the session's
-- marker in place: no deletion of the session, and no consumption or deletion of another whose keys
-- would be the marker.
pub service-once :
    {B W : Type 0} (h : Handlers W) (clock : W → Time)
    (marshal_policy : ClientPolicy → Result Bytes) (a : App B W) (l : List (Seam W))
    (valkey : IsValkey a.valkey) (id token token' : String) (body body' : Bytes)
    (origin origin' : String) (v w : W)
    → (router_of h a).resolve token v ≡ ok id
    → IsAccepted (wallet_response (router_of h a) token body origin v).0
    → Traffic a.valkey a.sessions valkey id ((router_of h a).consume_once id v).1 w
    → (router_of h (steps clock marshal_policy l a)).resolve token' w ≡ ok id
    → ¬ IsAccepted
        (wallet_response (router_of h (steps clock marshal_policy l a)) token' body' origin' w).0
service-once {B = B} {W = W} h clock marshal_policy a l valkey id token token' body body' origin
      origin' v w =
    let later = steps clock marshal_policy l a in
    let same = steps-kept clock marshal_policy l a in
    accepted-once (router_of h a) (router_of h later) a.valkey a.sessions valkey
      (router_of-ConsumesOf h a a.valkey a.sessions refl refl)
      (router_of-ConsumesOf h later a.valkey a.sessions (ap (λ (k : Kept B W). k.valkey) same)
        (ap (λ (k : Kept B W). k.sessions) same))
      id token token' body body' origin origin' v w
