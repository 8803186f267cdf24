-- ===== src/Pipeline/Trust.antt =====
-- The classification of credential types (internal/pipeline/errclass.go), the resolution of issuer
-- and status signer keys (internal/pipeline/check_issuer_authenticity.go) and the validity model
-- (internal/pipeline/issuervalidity.go).
pub mod Resolution
use mathlib.Core.List.{filter_map}
use eudi_verifier_core.Prelude.{
  String, Bool, Option, none, some, List, [], ◌∷◌, ◌++◌, ◌||◌, ◌&&◌, not, Bytes, bytes, quote, Time,
  is_zero, exists, str_eq, if◌then◌else◌,
}
use eudi_verifier_core.Errors.{GoError, Sentinel, Result, ok, err, wrap}
use eudi_verifier_core.Libraries.{
  Libraries, AnchorType, Certificate, Key, ResolvedIssuer, pid_provider, qeaa_provider,
  pub_eaa_provider, eaa_provider,
}

pub record CredentialClass : Type 0 where
  pub types : List String
  pub issuance : List AnchorType
  pub use_case : String

pub record CredentialTrustMap : Type 0 where
  pub classes : List CredentialClass
  pub fallback : List AnchorType

abbrev pub default_credential_trust : CredentialTrustMap
default_credential_trust = record {
  classes =
      record {
        types = "eu.europa.ec.eudi.pid.1" ∷ "urn:eudi:pid:1" ∷ [];
        issuance = pid_provider ∷ [];
        use_case = "";
      }
      ∷ [];
  fallback = qeaa_provider ∷ pub_eaa_provider ∷ eaa_provider ∷ [];
}

-- `ParseCredentialTrust`; `unmarshal` is `json.Unmarshal` into a map.
unfoldable pub parse_credential_trust :
    (Bytes → Result CredentialTrustMap) → Bytes → Result CredentialTrustMap
parse_credential_trust unmarshal [] = ok default_credential_trust
parse_credential_trust unmarshal (b ∷ raw) = elim (unmarshal (b ∷ raw)) [
  | err e ↦ err e
  | ok cfg ↦ ok (record {
    classes = cfg.classes ++ default_credential_trust.classes;
    fallback = elim cfg.fallback [ [] ↦ default_credential_trust.fallback | t ∷ ts ↦ t ∷ ts ];
  })
]

abbrev pub covers : CredentialClass → String → Bool
covers c id = exists (λ t. str_eq t id) c.types

issuance_in : List AnchorType → List CredentialClass → String → List AnchorType
issuance_in fallback [] id = fallback
issuance_in fallback (c ∷ cs) id = if covers c id then c.issuance else issuance_in fallback cs id

-- `CredentialTrustMap.Issuance`
unfoldable pub issuance : CredentialTrustMap → String → List AnchorType
unfolding issuance_in
issuance m id = issuance_in m.fallback m.classes id

use_case_in : List CredentialClass → String → String
use_case_in [] id = ""
use_case_in (c ∷ cs) id = if covers c id then c.use_case else use_case_in cs id

-- `CredentialTrustMap.UseCaseFor`
unfoldable pub use_case_for : CredentialTrustMap → String → String
unfolding use_case_in
use_case_for m id = use_case_in m.classes id

unfoldable pub use_case_allowed : String → List String → Bool
use_case_allowed required have = str_eq required "" || exists (λ u. str_eq u required) have

-- `IssuerValidityModel`, a string type.
abbrev pub IssuerValidityModel : Type 0
IssuerValidityModel = String

abbrev pub validity_at_signing_time : IssuerValidityModel
validity_at_signing_time = "chain"

abbrev pub validity_at_current_time : IssuerValidityModel
validity_at_current_time = "shell"

unfoldable pub signing_time_used : IssuerValidityModel → Time → Bool
signing_time_used m signed = str_eq m validity_at_signing_time && not (is_zero signed)

unfoldable pub path_validation_time : IssuerValidityModel → Time → Time → Time
path_validation_time m signed now =
    if str_eq m validity_at_signing_time && not (is_zero signed) then signed else now

module _ (lib : Libraries) where
  -- `CredentialTrustMap.Status`
  unfoldable pub status_types : CredentialTrustMap → String → List AnchorType
  status_types m id = filter_map lib.status_type (issuance m id) ++ issuance m id

  -- `lastErr`, or the error of an empty set of types.
  no_types : Option GoError → GoError
  no_types (some e) = e
  no_types none =
      wrap (lib.sentinel Sentinel.trust_chain_untrusted)
        (bytes "no anchor types configured for credential")

  module _ (chain : List Certificate) (at : Time) where
    resolve_from : Option GoError → List AnchorType → Result (Key × ResolvedIssuer)
    unfolding no_types
    resolve_from last [] = err (no_types last)
    resolve_from last (t ∷ ts) = elim (lib.resolve_issuer_key chain t at) [
      | ok found ↦ ok found
      | err e ↦ if e.is Sentinel.trust_cache_expired then err e else resolve_from (some e) ts
    ]

    unfoldable pub resolve_by_types : List AnchorType → Result (Key × ResolvedIssuer)
    unfolding resolve_from
    resolve_by_types types = resolve_from none types

  -- The use-case test of `resolveIssuerFor` and `resolveStatusSignerFor`; `who` opens its message.
  accredited : Bytes → String → Key × ResolvedIssuer → Result (Key × ResolvedIssuer)
  accredited who use_case (key, issuer) =
      if not (use_case_allowed use_case issuer.use_cases)
      then err (
          wrap (lib.sentinel Sentinel.trust_chain_untrusted)
            (who ++ (bytes " not accredited for use case " ++ quote use_case)))
      else ok (key, issuer)

  unfoldable pub resolve_issuer_for :
      CredentialTrustMap → List Certificate → String → Time → Result (Key × ResolvedIssuer)
  unfolding accredited
  resolve_issuer_for m chain id at = elim (resolve_by_types chain at (issuance m id)) [
    | err e ↦ err e
    | ok found ↦ accredited (bytes "issuer") (use_case_for m id) found
  ]

  unfoldable pub resolve_status_signer_for :
      CredentialTrustMap → List Certificate → String → Result Key
  unfolding accredited
  resolve_status_signer_for m chain id = elim (resolve_by_types chain lib.now (status_types m id)) [
    | err e ↦ err e
    | ok found ↦ elim (accredited (bytes "status signer") (use_case_for m id) found) [
      | err e ↦ err e
      | ok (key, issuer) ↦ ok key
    ]
  ]
