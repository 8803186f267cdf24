-- ===== src/App/Creating/Addressed.antt =====
-- The request URL of a session that a running service creates.
use eudi_verifier_core.Prelude.{String, List, ◌≡◌, ap, sym, ◌∙◌, Bytes, Time}
use eudi_verifier_core.Errors.{Result, ok}
use eudi_verifier_core.Libraries.{Session}
use eudi_verifier_core.Policy.{ClientPolicy}
use eudi_verifier_core.SessionCreator.{CreateInput, RequestSpec, Invocation, Created, create}
use eudi_verifier_core.SessionCreator.Creation.{Issued, create-Issued}
use eudi_verifier_core.Config.{Configuration}
use eudi_verifier_core.App.{
  App, EngineConfig, ProtocolEngine, request_uri, creator_of, session_creator,
}
use eudi_verifier_core.App.Init.{Outside, assembled, engine_config, init}
use eudi_verifier_core.App.Init.Wired.{Steps, init-IsWired}
use eudi_verifier_core.App.Creating.{Seam, steps, Kept, steps-kept, session_creator-current}

-- The session that such a creator creates was minted by the engine that the service started with,
-- and the URL that is returned for its request object is the one that this engine's own configuration
-- makes of the session's id.
pub record IsAddressed {B W : Type 0} (o : Outside B W) (a : App B W) (created : Created)
    : Type 0 where
  pub config : EngineConfig
  pub built : o.new_engine config ≡ ok a.engine
  pub spec : RequestSpec
  pub sess : Session
  pub inv : Invocation
  pub minted : a.engine.new_session spec ≡ ok (sess, inv)
  pub same : created.session_id ≡ sess.id
  pub address : created.request_uri ≡ config.request_uri_func created.session_id

addressed :
    {B W : Type 0} (o : Outside B W) (c : Configuration B) (clock : W → Time)
    (marshal_policy : ClientPolicy → Result Bytes) (a b : App B W) (s : Steps o c a)
    (input : CreateInput) (token : String) (now : Time) (w : W) (created : Created)
    → b.engine ≡ a.engine
    → b.config ≡ c
    → Issued (creator_of clock marshal_policy b) input token now w created
    → IsAddressed o a created
unfolding creator_of engine_config request_uri
addressed {B = B} o c clock marshal_policy a b s input token now w created engine config i =
    record {
      config = engine_config o c a.keys s.certs;
      built = s.protocol;
      spec = i.spec;
      sess = i.sess;
      inv = i.inv;
      minted = ap (λ (e : ProtocolEngine). e.new_session i.spec) (sym engine) ∙ i.asked;
      same = i.same_session;
      address =
          i.fetched_from
          ∙ ap (λ (x : Configuration B). request_uri x.public_base_url i.sess.id) config
          ∙ ap (request_uri c.public_base_url) (sym i.same_session);
    }

-- A session that a started service creates, whatever was swapped since the start, was minted by its
-- engine, and the request URL that the caller is given is the one that the engine's configuration
-- makes of the session's id.
pub create-IsAddressed :
    {B W : Type 0} (o : Outside B W) (c : Configuration B) (clock : W → Time)
    (marshal_policy : ClientPolicy → Result Bytes) (a : App B W) (l : List (Seam W))
    (input : CreateInput) (token : String) (now : Time) (w : W) (created : Created)
    → init o c ≡ ok a
    → (create
        (session_creator clock marshal_policy (steps clock marshal_policy l a)).0
        input
        (ok token)
        now
        w).0
      ≡ ok created
    → IsAddressed o a created
unfolding assembled
create-IsAddressed {B = B} {W = W} o c clock marshal_policy a l input token now w created h made =
    let b = steps clock marshal_policy l a in
    let (s, _) = init-IsWired o c a h in
    let creator : (session_creator clock marshal_policy b).0 ≡ creator_of clock marshal_policy b =
      session_creator-current o c clock marshal_policy a l h in
    addressed o c clock marshal_policy a b s input token now w created
      (ap (λ (k : Kept B W). k.engine) (steps-kept clock marshal_policy l a))
      (ap (λ (k : Kept B W). k.config) (steps-kept clock marshal_policy l a)
        ∙ ap (λ (x : App B W). x.config) s.made)
      (create-Issued (creator_of clock marshal_policy b) input token now w created
        (ap (λ k. (create k input (ok token) now w).0) (sym creator) ∙ made))
