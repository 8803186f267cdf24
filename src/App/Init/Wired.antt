-- ===== src/App/Init/Wired.antt =====
-- What a service that started is made of.
use mathlib.Core.Path.{subst}
use eudi_verifier_core.Prelude.{
  String, Option, none, some, List, ◌≡◌, ◌≢◌, pos, shorter, str_eq, eq_iff, Bool-cases, true, false,
  inl, inr, refl, sym, Bytes, bytes, text_append,
}
use eudi_verifier_core.Errors.{GoError, Result, ok, err}
use eudi_verifier_core.Libraries.{Certificate}
use eudi_verifier_core.Pipeline.Trust.{CredentialTrustMap, parse_credential_trust}
use eudi_verifier_core.Pipeline.Production.{production}
use eudi_verifier_core.ValkeyStore.{
  with_key_prefix, with_response_code_ttl, new_store, key_session, key_served, key_consumed,
}
use eudi_verifier_core.SessionDb.{Pool}
use eudi_verifier_core.RespondTokens.{token_key}
use eudi_verifier_core.Handoff.{Wire, Queue, new_queue, hard_cap}
use eudi_verifier_core.Handoff
use eudi_verifier_core.Handoff.Buffering.{new_queue-IsCapped}
use eudi_verifier_core.RespondTokens
use eudi_verifier_core.StatusCache
use eudi_verifier_core.StatusCache.{cache_key}
use eudi_verifier_core.Anchors.{getter_get}
use eudi_verifier_core.KeySet.{PublicKey}
use eudi_verifier_core.Config.{Configuration}
use eudi_verifier_core.App.{
  redaction_policy, Options, KeyProvider, ProtocolEngine, handoff_queue, from_valkey, App,
}
use eudi_verifier_core.App.Init.{
  Outside, ◌>>=◌, within, without_error, with_password, key_prefix, key_files, engine_config,
  assembled, init,
}

-- Every value that the computation returns satisfies the predicate.
data Allows {A : Type 0} (P : A → Type 0) (m : Result A) : Type 0 where
  allows : ((a : A) → m ≡ ok a → P a) → Allows P m

Allows-apply : {A : Type 0} (P : A → Type 0) (m : Result A) → Allows P m → (a : A) → m ≡ ok a → P a
Allows-apply P m (allows f) = f

Allows-bind :
    {A C : Type 0} {P : C → Type 0} (m : Result A) (f : A → Result C)
    → ((a : A) → m ≡ ok a → Allows P (f a))
    → Allows P (m >>= f)
Allows-bind (ok a) f k = k a refl
Allows-bind (err e) f k = allows (λ a h. absurd (cc h))

Allows-ok : {A : Type 0} {P : A → Type 0} (a : A) → P a → Allows P (ok a)
Allows-ok {P = P} a p = allows (λ b h. subst P (cc) p)

-- The same behind a text that an error is given.
Allows-within :
    {A C : Type 0} {P : C → Type 0} (text : Bytes) (m : Result A) (f : A → Result C)
    → ((a : A) → m ≡ ok a → Allows P (f a))
    → Allows P (within text m >>= f)
Allows-within text (ok a) f k = k a refl
Allows-within text (err e) f k = allows (λ a h. absurd (cc h))

without_error-ok : (o : Option GoError) → without_error o ≡ ok tt → o ≡ none
without_error-ok none h = refl
without_error-ok (some e) h = absurd (cc h)

module _ {B W : Type 0} (o : Outside B W) (c : Configuration B) where
  -- The results of the steps that can fail.
  pub record Steps (a : App B W) : Type 0 where
    pub parsed : Options
    pub pool : Pool W
    pub pem : Bytes
    pub certs : List Certificate
    pub handoff_pub : PublicKey
    pub policy : o.setup c.base (redaction_policy o.default_redaction) ≡ none
    pub address : o.parse_url c.valkey_url ≡ ok parsed
    pub database : o.new_pool c.postgres_dsn ≡ ok pool
    pub key_set : o.new_keys (key_files o c) ≡ ok a.keys
    pub file : o.read_file c.wrpac_chain_file ≡ ok pem
    pub chain : o.parse_cert_chain pem ≡ ok certs
    pub profile : o.load_wrpac certs ≡ ok a.wrpac
    pub protocol : o.new_engine (engine_config o c a.keys certs) ≡ ok a.engine
    pub trust :
        parse_credential_trust o.unmarshal_trust (bytes c.credential_trust_json) ≡ ok a.cred_trust
    pub encryption : a.keys.public o.key_handoff_enc ≡ ok handoff_pub
    pub made :
        a
        ≡ assembled o c
            (with_password c.valkey_password parsed)
            pool
            a.keys
            a.wrpac
            a.engine
            a.cred_trust
            handoff_pub

  init-Allows : Allows Steps (init o c)
  unfolding init
  init-Allows =
      Allows-bind (without_error (o.setup c.base (redaction_policy o.default_redaction))) _
        (λ done policy. Allows-bind (o.parse_url c.valkey_url) _ (λ parsed address.
          Allows-bind (o.new_pool c.postgres_dsn) _ (λ pool database.
            Allows-bind (o.new_keys (key_files o c)) _ (λ keys key_set.
              Allows-within (bytes "wrpac chain: ") (o.read_file c.wrpac_chain_file) _ (λ pem file.
                Allows-within (bytes "wrpac chain: ") (o.parse_cert_chain pem) _ (λ certs chain.
                  Allows-within (bytes "wrpac: ") (o.load_wrpac certs) _ (λ wrpac profile.
                    Allows-bind (o.new_engine (engine_config o c keys certs)) _ (λ engine protocol.
                      Allows-within (bytes "credential trust map: ")
                        (parse_credential_trust o.unmarshal_trust (bytes c.credential_trust_json)) _
                        (λ trust parsed_trust.
                          Allows-within (bytes "handoff key: ") (keys.public o.key_handoff_enc) _
                            (λ handoff_pub encryption. Allows-ok _ (record {
                              parsed = parsed;
                              pool = pool;
                              pem = pem;
                              certs = certs;
                              handoff_pub = handoff_pub;
                              policy =
                                  without_error-ok
                                    (o.setup c.base (redaction_policy o.default_redaction)) policy;
                              address = address;
                              database = database;
                              key_set = key_set;
                              file = file;
                              chain = chain;
                              profile = profile;
                              protocol = protocol;
                              trust = parsed_trust;
                              encryption = encryption;
                              made = refl;
                            })))))))))))

-- A key that starts with the prefix.
pub record Under (prefix key : String) : Type 0 where
  pub rest : String
  pub same : key ≡ text_append prefix rest

chosen_password :
    (password : String) (parsed : Options)
    → password ≢ ""
    → (with_password password parsed).password ≡ password
unfolding with_password
chosen_password password parsed given = elim (Bool-cases (str_eq password "")) [
  | inl e ↦ absurd (given ((eq_iff password "").0 e))
  | inr e ↦ rw e refl
]

module _ {B W : Type 0} (o : Outside B W) (c : Configuration B) where
  -- What the parts of a service have in common: the prefix of the configuration in front of every
  -- key, the lifetimes of the configuration, within the cap of the queue, a password that is mounted,
  -- and the production checks.
  pub record IsWired (a : App B W) : Type 0 where
    pub sessions : (id : String) → Under (key_prefix o c) (key_session a.sessions id)
    pub served : (id : String) → Under (key_prefix o c) (key_served a.sessions id)
    pub consumed : (id : String) → Under (key_prefix o c) (key_consumed a.sessions id)
    pub tokens : (token : String) → Under (key_prefix o c) (token_key a.respond_tokens token)
    pub lists : (uri : String) → Under (key_prefix o c) (cache_key a.status_cache uri)
    pub refs : a.status_refs.prefix ≡ key_prefix o c
    pub anchors :
        a.anchor_source
        ≡ from_valkey (o.anchor_reader (getter_get a.valkey (key_prefix o c)) c.anchor_grace)
    pub wire : Wire W
    pub queue : Queue
    pub sink : a.result_sink ≡ handoff_queue wire queue
    pub queued : queue ≡ Handoff.with_prefix (key_prefix o c) (new_queue c.handoff_ttl)
    pub positive : shorter (pos 0) queue.ttl ≡ true
    pub capped : shorter hard_cap queue.ttl ≡ false
    pub lifetime : a.sessions.session_ttl ≡ c.session_ttl
    pub code_lifetime : a.sessions.resp_code_ttl ≡ c.response_code_ttl
    pub password : c.valkey_password ≢ "" → a.options.password ≡ c.valkey_password
    pub checks : a.pipeline ≡ production

  assembled-IsWired :
      (parsed : Options) (pool : Pool W) (keys : KeyProvider) (wrpac : Bytes)
      (engine : ProtocolEngine) (trust : CredentialTrustMap) (handoff_pub : PublicKey)
      → IsWired (
          assembled o c
            (with_password c.valkey_password parsed)
            pool
            keys
            wrpac
            engine
            trust
            handoff_pub)
  unfolding assembled key_session key_served key_consumed token_key cache_key with_key_prefix
      RespondTokens.with_prefix StatusCache.with_key_prefix Handoff.with_prefix
      with_response_code_ttl new_store
  assembled-IsWired parsed pool keys wrpac engine trust handoff_pub = record {
    sessions = λ id. record { rest = _; same = refl };
    served = λ id. record { rest = _; same = refl };
    consumed = λ id. record { rest = _; same = refl };
    tokens = λ token. record { rest = _; same = refl };
    lists = λ uri. record { rest = _; same = refl };
    refs = refl;
    anchors = refl;
    wire = _;
    queue = _;
    sink = refl;
    queued = refl;
    positive = (new_queue-IsCapped c.handoff_ttl).0;
    capped = (new_queue-IsCapped c.handoff_ttl).1;
    lifetime = refl;
    code_lifetime = refl;
    password = λ given. chosen_password c.valkey_password parsed given;
    checks = refl;
  }

-- If the service starts, every step that could fail returned a value that the service is made of, and
-- the parts share one key prefix, the configured lifetimes and the production checks.
pub init-IsWired :
    {B W : Type 0} (o : Outside B W) (c : Configuration B) (a : App B W)
    → init o c ≡ ok a
    → Steps o c a × IsWired o c a
init-IsWired o c a h =
    let s = Allows-apply (Steps o c) (init o c) (init-Allows o c) a h in
    (
      s,
      subst (IsWired o c) (sym s.made) (
          assembled-IsWired o c s.parsed s.pool a.keys a.wrpac a.engine a.cred_trust s.handoff_pub),
    )
