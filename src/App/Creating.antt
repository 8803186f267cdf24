-- ===== src/App/Creating.antt =====
-- The sessions that a running service creates.
pub mod Addressed
use eudi_verifier_core.Prelude.{
  String, Option, none, some, List, [], ◌∷◌, ◌≡◌, ◌⊎◌, inl, inr, refl, ap, sym, ◌∙◌, Bytes, Time,
}
use eudi_verifier_core.Errors.{GoError, Result, ok}
use eudi_verifier_core.Libraries.{Session}
use eudi_verifier_core.Policy.{ClientPolicy}
use eudi_verifier_core.SessionCreator.{
  CreateInput, request_spec, response_url, RequestSpec, Invocation, Created, Creator, create,
}
use eudi_verifier_core.SessionCreator.Creation.{Issued, create-Issued}
use eudi_verifier_core.SessionDb.{MetadataStore}
use eudi_verifier_core.ValkeyStore.{Backend, Store}
use eudi_verifier_core.Anchors.{Anchor}
use eudi_verifier_core.Config.{Configuration}
use eudi_verifier_core.App.{
  App, ResultSink, EngineConfig, ProtocolEngine, request_uri, creator_of, given_creator,
  session_creator, set_session_db, set_result_sink, set_db_ping_for_test, seed_test_trust,
  expire_test_anchors,
}
use eudi_verifier_core.App.Init.{Outside, assembled, engine_config, init}
use eudi_verifier_core.App.Init.Wired.{Steps, init-IsWired}

-- What changes an application after its start.
pub data Seam (W : Type 0) : Type 0 where
  asks_creator : Seam W
  sets_session_db : MetadataStore W → Seam W
  sets_result_sink : ResultSink W → Seam W
  sets_db_ping : (W → Option GoError) → Seam W
  seeds_trust : List Anchor → (String → Result Bytes) → Seam W
  expires_anchors : Seam W

-- What no seam touches: the engine, the configuration, and the store of sessions on its server.
pub record Kept (B W : Type 0) : Type 0 where
  pub engine : ProtocolEngine
  pub config : Configuration B
  pub valkey : Backend W
  pub sessions : Store

abbrev pub kept : {B W : Type 0} → App B W → Kept B W
kept a = record { engine = a.engine; config = a.config; valkey = a.valkey; sessions = a.sessions }

module _ {B W : Type 0} (clock : W → Time) (marshal_policy : ClientPolicy → Result Bytes) where
  unfoldable pub step : Seam W → App B W → App B W
  step asks_creator a = (session_creator clock marshal_policy a).1
  step (sets_session_db s) a = set_session_db s a
  step (sets_result_sink s) a = set_result_sink s a
  step (sets_db_ping f) a = set_db_ping_for_test f a
  step (seeds_trust anchors fetcher) a = seed_test_trust anchors fetcher a
  step expires_anchors a = expire_test_anchors a

  unfoldable pub steps : List (Seam W) → App B W → App B W
  unfolding step
  steps [] a = a
  steps (s ∷ rest) a = steps rest (step s a)

  -- A creator that was built is the one for the present parts of the application.
  abbrev IsCurrent : App B W → Type 0
  IsCurrent a = (a.creator ≡ none) ⊎ (a.creator ≡ some (creator_of clock marshal_policy a))

  asked-IsCurrent :
      (a : App B W) (got : Option (Creator W))
      → a.creator ≡ got
      → IsCurrent a
      → IsCurrent (given_creator clock marshal_policy a got).1
  unfolding given_creator creator_of
  asked-IsCurrent a (some c) e h = h
  asked-IsCurrent a none e h = inr refl

  step-IsCurrent : (s : Seam W) (a : App B W) → IsCurrent a → IsCurrent (step s a)
  unfolding step session_creator set_session_db set_result_sink set_db_ping_for_test seed_test_trust
      expire_test_anchors creator_of
  step-IsCurrent (sets_session_db s) a h = inl refl
  step-IsCurrent (sets_result_sink s) a h = h
  step-IsCurrent (sets_db_ping f) a h = h
  step-IsCurrent (seeds_trust anchors fetcher) a h = h
  step-IsCurrent expires_anchors a h = h
  step-IsCurrent asks_creator a h = asked-IsCurrent a a.creator refl h

  asked-kept :
      (a : App B W) (got : Option (Creator W))
      → kept (given_creator clock marshal_policy a got).1 ≡ kept a
  unfolding given_creator creator_of
  asked-kept a (some c) = refl
  asked-kept a none = refl

  step-kept : (s : Seam W) (a : App B W) → kept (step s a) ≡ kept a
  unfolding step session_creator set_session_db set_result_sink set_db_ping_for_test seed_test_trust
      expire_test_anchors
  step-kept (sets_session_db s) a = refl
  step-kept (sets_result_sink s) a = refl
  step-kept (sets_db_ping f) a = refl
  step-kept (seeds_trust anchors fetcher) a = refl
  step-kept expires_anchors a = refl
  step-kept asks_creator a = asked-kept a a.creator

  pub steps-kept : (l : List (Seam W)) (a : App B W) → kept (steps l a) ≡ kept a
  unfolding steps
  steps-kept [] a = refl
  steps-kept (s ∷ l) a = steps-kept l (step s a) ∙ step-kept s a

  steps-IsCurrent : (l : List (Seam W)) (a : App B W) → IsCurrent a → IsCurrent (steps l a)
  unfolding steps
  steps-IsCurrent [] a h = h
  steps-IsCurrent (s ∷ l) a h = steps-IsCurrent l (step s a) (step-IsCurrent s a h)

  given_creator-eq :
      (a : App B W) (got : Option (Creator W))
      → a.creator ≡ got
      → IsCurrent a
      → (given_creator clock marshal_policy a got).0 ≡ creator_of clock marshal_policy a
  unfolding given_creator creator_of
  given_creator-eq a none e h = refl
  given_creator-eq a (some c) e (inl h) = absurd (cc (e, h))
  given_creator-eq a (some c) e (inr h) = cc

  session_creator-eq :
      (a : App B W)
      → IsCurrent a
      → (session_creator clock marshal_policy a).0 ≡ creator_of clock marshal_policy a
  unfolding session_creator creator_of
  session_creator-eq a h = given_creator-eq a a.creator refl h

module _ {B W : Type 0} (o : Outside B W) (c : Configuration B) where
  -- A service that has just started has no creator.
  init-creator : (a : App B W) → init o c ≡ ok a → a.creator ≡ none
  unfolding assembled
  init-creator a h = let (s, _) = init-IsWired o c a h in ap (λ (b : App B W). b.creator) s.made

-- However the stores, the sink and the trust of a started service were swapped, and whenever its
-- creator was asked for: the creator that it gives out is the one of its present parts, of which the
-- store of session rows is one.
pub session_creator-current :
    {B W : Type 0} (o : Outside B W) (c : Configuration B) (clock : W → Time)
    (marshal_policy : ClientPolicy → Result Bytes) (a : App B W) (l : List (Seam W))
    → init o c ≡ ok a
    → (session_creator clock marshal_policy (steps clock marshal_policy l a)).0
      ≡ creator_of clock marshal_policy (steps clock marshal_policy l a)
session_creator-current o c clock marshal_policy a l h =
    session_creator-eq clock marshal_policy (steps clock marshal_policy l a)
      (steps-IsCurrent clock marshal_policy l a (inl (init-creator o c a h)))
