-- ===== src/Pipeline/Names.antt =====
-- internal/pipeline/specrefs.go: the names of the ten checks, their order and their references.
use eudi_verifier_core.Prelude.{String, List, [], ◌∷◌, str_eq, if◌then◌else◌}

abbrev pub response_integrity : String
response_integrity = "response_integrity"

abbrev pub parse : String
parse = "parse"

abbrev pub issuer_authenticity : String
issuer_authenticity = "issuer_authenticity"

abbrev pub data_integrity : String
data_integrity = "data_integrity"

abbrev pub revocation : String
revocation = "revocation"

abbrev pub device_binding : String
device_binding = "device_binding"

abbrev pub user_binding : String
user_binding = "user_binding"

abbrev pub query_fulfilment : String
query_fulfilment = "query_fulfilment"

abbrev pub combined_checks : String
combined_checks = "combined_checks"

abbrev pub assemble_forward : String
assemble_forward = "assemble_forward"

-- `AllChecks`
abbrev pub all_checks : List String
all_checks =
    response_integrity ∷ parse ∷ issuer_authenticity ∷ data_integrity ∷ revocation ∷ device_binding
    ∷ user_binding ∷ query_fulfilment ∷ combined_checks ∷ assemble_forward ∷ []

-- `SpecRefs[name]`, which is empty for a name that the map lacks.
unfoldable pub spec_refs : String → String
spec_refs name =
    if str_eq name response_integrity
    then "OID4VP §8.2"
    else if str_eq name parse
    then "ISO/IEC 18013-5 §8.3 / IETF SD-JWT VC"
    else if str_eq name issuer_authenticity
    then "ARF §6.6.3.6"
    else if str_eq name data_integrity
    then "ISO/IEC 18013-5 §9.1.2 / SD-JWT"
    else if str_eq name revocation
    then "ARF §6.6.3.7"
    else if str_eq name device_binding
    then "ARF §6.6.3.8"
    else if str_eq name user_binding
    then "ARF §6.6.3.9"
    else if str_eq name query_fulfilment
    then "OID4VP §6"
    else if str_eq name combined_checks
    then "ARF Topic 18"
    else if str_eq name assemble_forward
    then "ARF AS-RP-51-008/011/013"
    else ""
