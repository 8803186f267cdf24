-- ===== src/Pipeline/Classify.antt =====
-- internal/pipeline/errclass.go (`classifyFormatError`), internal/pipeline/errmap.go, and
-- `classifyOID4VP` and `failDetail` of internal/pipeline/check_response_integrity.go.
use eudi_verifier_core.Prelude.{
  String, Option, none, some, Bytes, bytes, [], ◌++◌, ◌||◌, take, str_eq, if◌then◌else◌,
}
use eudi_verifier_core.Errors.{GoError, WalletError, Sentinel}
use eudi_verifier_core.Pipeline.Names
use eudi_verifier_core.Pipeline.Report.{detail_cap}

-- The step that owns an error of a format library, and the error's code.
unfoldable pub classify_format_error : GoError → String × String
classify_format_error e =
    if e.is Sentinel.sdjwt_malformed || e.is Sentinel.mdoc_malformed
    then (Names.parse, "err:credential:parse")
    else if e.is Sentinel.sdjwt_digest_mismatch
        || e.is Sentinel.mdoc_integrity
        || e.is Sentinel.sdjwt_duplicate_digest
        || e.is Sentinel.sdjwt_claim_collision
    then (Names.data_integrity, "err:credential:integrity")
    else if e.is Sentinel.sdjwt_kb_required
        || e.is Sentinel.sdjwt_kb_type
        || e.is Sentinel.sdjwt_kb_signature
        || e.is Sentinel.sdjwt_kb_audience
        || e.is Sentinel.sdjwt_kb_nonce
        || e.is Sentinel.sdjwt_kb_stale
        || e.is Sentinel.sdjwt_kb_sd_hash
        || e.is Sentinel.sdjwt_missing_cnf
        || e.is Sentinel.mdoc_device_auth
        || e.is Sentinel.mdoc_device_mac_unsupported
    then (Names.device_binding, "err:credential:binding-failed")
    else if e.is Sentinel.trust_cache_expired
    then (Names.issuer_authenticity, "err:trust:anchor-unavailable")
    else if e.is Sentinel.sdjwt_expired
        || e.is Sentinel.mdoc_validity
        || e.is Sentinel.sdjwt_not_yet_valid
    then (Names.issuer_authenticity, "err:credential:expired")
    else if e.is Sentinel.trust_chain_out_of_validity || e.is Sentinel.mdoc_issuer_cert_validity
    then (Names.issuer_authenticity, "err:credential:issuer-cert-expired")
    else (Names.issuer_authenticity, "err:credential:issuer-untrusted")

-- `CodeForError`, at an error that is not nil.
unfoldable pub code_for_error : GoError → String
code_for_error e =
    if e.is Sentinel.oid4vp_session_not_found
    then "err:session:not-found"
    else if e.is Sentinel.oid4vp_session_consumed
    then "err:session:consumed"
    else if e.is Sentinel.trust_cache_expired
    then "err:trust:anchor-unavailable"
    else if e.is Sentinel.context_canceled || e.is Sentinel.context_deadline_exceeded
    then "err:pipeline:internal"
    else "err:pipeline:internal"

-- `safeDetail`; the argument is `none` for a nil error.
unfoldable pub safe_detail : Option GoError → Bytes
safe_detail none = []
safe_detail (some e) = take detail_cap e.message

-- The wallet's own account, as `failDetail` writes it.
declined_detail : WalletError → Bytes
declined_detail d =
    let detail = bytes "wallet reported " ++ bytes d.code in
    if str_eq d.description "" then detail else detail ++ (bytes ": " ++ bytes d.description)

unfoldable pub fail_detail : GoError → Bytes
unfolding declined_detail safe_detail
fail_detail e = elim e.declined [ some d ↦ declined_detail d | none ↦ safe_detail (some e) ]

unfoldable pub classify_oid4vp : GoError → String
classify_oid4vp e = elim e.declined [
  | some d ↦ "err:presentation:wallet-declined"
  | none ↦
      if e.is Sentinel.oid4vp_state_mismatch
      then "err:presentation:nonce-mismatch"
      else if e.is Sentinel.oid4vp_session_consumed
      then "err:session:consumed"
      else "err:presentation:invalid-response"
]
