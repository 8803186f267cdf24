-- ===== src/Libraries.antt =====
-- What the service takes from the composed libraries (go-oid4vp, go-sdjwt, go-mdoc, go-statuslist,
-- go-eudi-trust, go-dcql, go-eudi-crypto): the fields that the source reads of their values, and
-- their operations as parameters.
use eudi_verifier_core.Prelude.{ℕ, String, Bool, Option, List, Bytes, Time, Duration}
use eudi_verifier_core.Errors.{Sentinel, GoError, Result}
use eudi_verifier_core.Claims.{Claims}

-- `oid4vp.Flow`
pub data Flow : Type 0 where
  same_device cross_device dcapi : Flow

-- A credential format of go-dcql: `FormatSDJWT`, `FormatMdoc`, or any other text.
pub data Format : Type 0 where
  sd_jwt mdoc : Format
  other : String → Format

-- `trust.AnchorType`
pub data AnchorType : Type 0 where
  pid_provider qeaa_provider pub_eaa_provider eaa_provider : AnchorType
  wallet_provider access_ca wrprc_issuer : AnchorType
  pid_provider_status qeaa_provider_status pub_eaa_provider_status : AnchorType
  eaa_provider_status : AnchorType
  named : String → AnchorType

-- Certificates (DER) and public keys are opaque byte strings.
abbrev pub Certificate : Type 0
Certificate = Bytes

abbrev pub Key : Type 0
Key = Bytes

-- `trust.ResolvedIssuer`
pub record ResolvedIssuer : Type 0 where
  pub anchor_country : String
  pub use_cases : List String

-- `statuslist.Status`
pub data Status : Type 0 where
  revoked suspended unknown : Status
  coded : ℕ → Status

-- `statuslist.StatusRef`
pub record StatusRef : Type 0 where
  pub uri : String
  pub index : ℕ

-- `dcql.CredentialQuery`; `holder_binding_required` is what its method of that name returns.
pub record QueryMeta : Type 0 where
  pub vct_values : List String
  pub doctype_value : String

pub record CredentialQuery : Type 0 where
  pub id : String
  pub meta : Option QueryMeta
  pub holder_binding_required : Bool

-- `oid4vp.Session`; `secrets` stands for its nonce, state and ephemeral key.
pub record Session : Type 0 where
  pub id : String
  pub flow : Flow
  pub query : List CredentialQuery
  pub expires_at : Time
  pub consumed : Bool
  pub response_code : String
  pub return_uri : String
  pub secrets : Bytes

-- `oid4vp.Presentation`
pub record Presentation : Type 0 where
  pub query_cred_id : String
  pub format : Format
  pub payload : Bytes
  pub nonce : String
  pub client_id : String
  pub jwk_thumbprint : Bytes
  pub response_uri : String

-- What `sdjwt.Peek` reads, unverified.
pub record Peeked : Type 0 where
  pub x5c : List Certificate
  pub iat : Option Time

-- `sdjwt.VerifiedCredential`
pub record VerifiedCredential : Type 0 where
  pub vct : String
  pub claims : Claims
  pub status : Option StatusRef
  pub issued_at : Time
  pub not_before : Time
  pub expiry : Time
  pub decoy_digests : ℕ

-- `mdoc.VerifiedDocument`
pub record VerifiedDocument : Type 0 where
  pub doc_type : String
  pub namespaces : List (String × Claims)
  pub status : Option StatusRef
  pub valid_from : Time
  pub valid_until : Time

-- `sdjwt.VerifyInput`
pub record SdJwtInput : Type 0 where
  pub presentation : Bytes
  pub issuer_key : Key
  pub expected_aud : String
  pub expected_nonce : String
  pub require_kb : Bool

-- The two session transcripts of go-mdoc.
pub data SessionTranscript : Type 0 where
  dcapi_handover : String → String → Bytes → SessionTranscript
  handover : String → String → Bytes → String → SessionTranscript

-- A run of `mdoc.Verifier.Verify`: it may ask its `IssuerTrust` for the key of a certificate chain
-- and a claimed signing time, any number of times, before it returns.
pub data MdocRun : Type 0 where
  returns : Result (List VerifiedDocument) → MdocRun
  asks : List Certificate → Time → (Result Key → MdocRun) → MdocRun

-- `statuslist.CheckInput`; the resolver is the callback that takes the raw token.
pub record StatusInput : Type 0 where
  pub ref : StatusRef
  pub resolver : Bytes → Result Key
  pub allow_fail_open : Bool
  pub max_stale : Duration
  pub credential_validity : Duration

pub record StatusReply : Type 0 where
  pub status : Status
  pub outcome : String
  pub error : Option GoError

-- `dcql.Candidate`; its `IssuerAuthority` is always the zero value.
pub record Candidate : Type 0 where
  pub query_cred_id : String
  pub format : Format
  pub doctype_or_vct : String
  pub claims : Claims
  pub holder_bound : Bool

-- `dcql.Unmet`, with its reason and paths as `%s` and `%v` print them.
pub record Unmet : Type 0 where
  pub credential_id : String
  pub reason : Bytes
  pub paths : Bytes

pub record MatchResult : Type 0 where
  pub satisfied : Bool
  pub unmet : List Unmet

-- The operations, within one request: the trust source and the deployment are fixed.
pub record Libraries : Type 0 where
  -- The error value of each sentinel.
  pub sentinel : Sentinel → GoError
  pub process_response : Session → Bytes → Session × Result (List Presentation × String)
  pub process_dcapi_response : Session → String → Bytes → Result (List Presentation)
  pub peek : Bytes → Result Peeked
  pub decode_device_response : Bytes → Option GoError
  pub verify_sd_jwt : SdJwtInput → Result VerifiedCredential
  pub verify_mdoc : Bytes → SessionTranscript → MdocRun
  -- `trust.ResolveIssuerKey`, `trust.Now` and `trust.StatusType`.
  pub resolve_issuer_key : List Certificate → AnchorType → Time → Result (Key × ResolvedIssuer)
  pub now : Time
  pub status_type : AnchorType → Option AnchorType
  pub check_status : StatusInput → StatusReply
  -- The zero value of `Status`.
  pub zero_status : Status
  -- `crypto.ParseJWSHeader` and `crypto.X5CFromHeader`.
  pub parse_jws_header : Bytes → Result Bytes
  pub x5c_from_header : Bytes → Result (List Certificate)
  pub match : List CredentialQuery → List Candidate → MatchResult
