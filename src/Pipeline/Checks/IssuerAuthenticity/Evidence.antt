-- ===== src/Pipeline/Checks/IssuerAuthenticity/Evidence.antt =====
-- What it means that a credential was verified: the key of its issuer was resolved by the trust map,
-- and the format library accepted the presentation under that key and this session's binding.
use eudi_verifier_core.Prelude.{String, Bool, true, Option, some, List, [], ◌∷◌, ◌≡◌, ◌&&◌, Time}
use eudi_verifier_core.Errors.{GoError, Result, ok, err}
use eudi_verifier_core.Policy.{ClientPolicy, require_device_binding_sdjwt}
use eudi_verifier_core.Libraries.{
  Libraries, Presentation, CredentialQuery, Certificate, Key, ResolvedIssuer, Format, sd_jwt, mdoc,
  other, VerifiedCredential, VerifiedDocument, MdocRun, returns, asks,
}
use eudi_verifier_core.Pipeline.Trust.{
  CredentialTrustMap, IssuerValidityModel, resolve_issuer_for, path_validation_time,
  signing_time_used,
}
use eudi_verifier_core.Pipeline.Context.{PipelineContext, Credential}
use eudi_verifier_core.Pipeline.Checks.IssuerAuthenticity.{
  vct_from_query, doctype_from_query, query_requires_binding, expected_kb_audience,
  session_transcript, claimed_iat,
}

-- The parts of a run's context that verification reads.
pub record Setting : Type 0 where
  pub query : List CredentialQuery
  pub policy : ClientPolicy
  pub origin : String
  pub cred_trust : CredentialTrustMap
  pub issuer_validity : IssuerValidityModel

abbrev pub setting : {W : Type 0} → PipelineContext W → Setting
setting pc = record {
  query = pc.session.query;
  policy = pc.policy;
  origin = pc.origin;
  cred_trust = pc.cred_trust;
  issuer_validity = pc.issuer_validity;
}

abbrev pub requires_binding : Setting → String → Bool
requires_binding s id = require_device_binding_sdjwt s.policy && query_requires_binding s.query id

-- The certificate path resolved at the time that the validity model selects, the library accepted
-- the presentation under that key, audience and nonce, and a signing time that selected the
-- validation time is the authenticated one.
pub record SdJwtEvidence (lib : Libraries) (s : Setting) (pres : Presentation)
    (x5c : List Certificate) (iat : Option Time) (vc : VerifiedCredential) : Type 0 where
  pub key : Key
  pub issuer : ResolvedIssuer
  pub chained :
      resolve_issuer_for lib s.cred_trust x5c
        (vct_from_query s.query pres.query_cred_id)
        (path_validation_time s.issuer_validity (claimed_iat iat) lib.now)
      ≡ ok (key, issuer)
  pub accepted :
      lib.verify_sd_jwt (record {
        presentation = pres.payload;
        issuer_key = key;
        expected_aud = expected_kb_audience s.origin pres;
        expected_nonce = pres.nonce;
        require_kb = requires_binding s pres.query_cred_id;
      })
      ≡ ok vc
  pub timely :
      signing_time_used s.issuer_validity (claimed_iat iat) ≡ true → vc.issued_at ≡ claimed_iat iat

-- A run of the mdoc library that ends with `docs`, each of its questions answered by the resolver.
pub data MdocEvidence (lib : Libraries) (s : Setting) (doctype : String)
    (docs : List VerifiedDocument) : MdocRun → Type 0 where
  accepts :
      (r : Result (List VerifiedDocument))
      → r ≡ ok docs
      → MdocEvidence lib s doctype docs (returns r)
  untrusted :
      (chain : List Certificate) (signed : Time) (next : Result Key → MdocRun) (e : GoError)
      → resolve_issuer_for lib s.cred_trust chain doctype
          (path_validation_time s.issuer_validity signed lib.now)
        ≡ err e
      → MdocEvidence lib s doctype docs (next (err e))
      → MdocEvidence lib s doctype docs (asks chain signed next)
  trusted :
      (chain : List Certificate) (signed : Time) (next : Result Key → MdocRun) (key : Key)
      (issuer : ResolvedIssuer)
      → resolve_issuer_for lib s.cred_trust chain doctype
          (path_validation_time s.issuer_validity signed lib.now)
        ≡ ok (key, issuer)
      → MdocEvidence lib s doctype docs (next (ok key))
      → MdocEvidence lib s doctype docs (asks chain signed next)

-- The evidence for a credential of a format, and the library's value that the pipeline keeps of it.
abbrev pub EvidenceAs :
    Libraries
    → Setting
    → Format
    → Presentation
    → List Certificate
    → Option Time
    → Option VerifiedCredential
    → Option VerifiedDocument
    → Type 0
EvidenceAs lib s sd_jwt pres x5c iat sd md =
    (vc : VerifiedCredential) × (sd ≡ some vc) × SdJwtEvidence lib s pres x5c iat vc
EvidenceAs lib s mdoc pres x5c iat sd md =
    (doc : VerifiedDocument) × (md ≡ some doc)
    × MdocEvidence lib s (doctype_from_query s.query pres.query_cred_id) (doc ∷ [])
        (lib.verify_mdoc pres.payload (session_transcript s.origin pres))
EvidenceAs lib s (other name) pres x5c iat sd md = ⊥

abbrev pub Evidence : Libraries → Setting → Credential → Type 0
Evidence lib s c = EvidenceAs lib s c.pres.format c.pres c.x5c c.iat c.sd c.md
