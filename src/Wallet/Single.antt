-- ===== src/Wallet/Single.antt =====
-- The wallet's handler over the session store: one accepted response for a session.
use eudi_verifier_core.Prelude.{String, ◌≡◌, sym, Bytes, Time}
use eudi_verifier_core.Errors.{ok}
use eudi_verifier_core.Libraries.{Session}
use eudi_verifier_core.ValkeyStore.{Backend, Store, consume_once}
use eudi_verifier_core.ValkeyStore.Laws.{IsValkey}
use eudi_verifier_core.ValkeyStore.Replay.{Calls}
use eudi_verifier_core.ValkeyStore.Replay.Traffic.{Traffic, quiet, operations, Traffic-once}
use eudi_verifier_core.Wallet.{Router, wallet_response}
use eudi_verifier_core.Wallet.Responses.{IsAccepted, wallet_response-Backed}

module _ {V : Type 0} (r : Router V) (b : Backend V) (s : Store) where
  -- The router consumes sessions of this store, at some reading of the two clocks.
  pub record ConsumesOf : Type 0 where
    pub now : String → V → Time
    pub wall : String → V → Time
    pub same :
        (id : String) (v : V) → r.consume_once id v ≡ consume_once b s id (now id v) (wall id v) v

  -- An accepted response consumed the session that its token routes to.
  accepted_claims :
      (token : String) (body : Bytes) (origin id : String) (v : V)
      → r.resolve token v ≡ ok id
      → IsAccepted (wallet_response r token body origin v).0
      → (sess : Session) × ((r.consume_once id v).0 ≡ ok sess)
  accepted_claims token body origin id v routed h =
      let k = wallet_response-Backed r token body origin v h in
      let here : k.id ≡ id = cc (k.routed, routed) in (k.sess, rw (sym here) k.claimed)

-- Two routers that consume the sessions of one store: once the first has accepted a response for a
-- session, behind such traffic the second accepts none that routes to it.
pub accepted-once :
    {V : Type 0} (r r' : Router V) (b : Backend V) (s : Store) (valkey : IsValkey b)
    → ConsumesOf r b s
    → ConsumesOf r' b s
    → (id token token' : String) (body body' : Bytes) (origin origin' : String) (v w : V)
    → r.resolve token v ≡ ok id
    → IsAccepted (wallet_response r token body origin v).0
    → Traffic b s valkey id (r.consume_once id v).1 w
    → r'.resolve token' w ≡ ok id
    → ¬ IsAccepted (wallet_response r' token' body' origin' w).0
accepted-once r r' b s valkey of of' id token token' body body' origin origin' v w routed first
      traffic again =
    λ second.
      let (sess, claimed) = accepted_claims r b s token body origin id v routed first in
      let (sess', claimed') = accepted_claims r' b s token' body' origin' id w again second in
      let (e, refused) =
        Traffic-once b s valkey id sess (of.now id v) (of.wall id v) (of'.now id w) (of'.wall id w)
          v w (rw (of.same id v) at claimed) (rw (of.same id v) at traffic) in
      cc (rw (of'.same id w) at claimed', refused)

-- On a backend that behaves like Valkey and of which no key expires, with a router that consumes the
-- sessions of this store: once a response for a session was accepted, no later response that routes
-- to the session is, whatever operations of the store came between, on this session or on others,
-- but for a deletion of this one and for a consumption or a deletion of another whose keys would be
-- this session's marker.
wallet_response-once :
    {V : Type 0} (r : Router V) (b : Backend V) (s : Store)
    → IsValkey b
    → ConsumesOf r b s
    → (id token token' : String) (body body' : Bytes) (origin origin' : String) (v w : V)
    → r.resolve token v ≡ ok id
    → IsAccepted (wallet_response r token body origin v).0
    → Calls b s id (r.consume_once id v).1 w
    → r.resolve token' w ≡ ok id
    → ¬ IsAccepted (wallet_response r token' body' origin' w).0
wallet_response-once r b s valkey of id token token' body body' origin origin' v w routed first
      calls again =
    accepted-once r r b s valkey of of id token token' body body' origin origin' v w routed first
      (operations _ w w calls (quiet w)) again
