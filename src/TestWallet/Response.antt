-- ===== src/TestWallet/Response.antt =====
-- The wallet's response to a request: `BuildResponse`, `Respond` and `ParseDCAPIRequest` of
-- internal/testwallet/wallet.go.
pub mod Answers
use eudi_verifier_core.Prelude.{
  ℕ, String, Bool, Option, none, some, List, [], ◌∷◌, ◌++◌, ◌&&◌, not, Bytes, bytes, quote, GoMap,
  assign, str_eq, text_append, if◌then◌else◌,
}
use eudi_verifier_core.Errors.{GoError, Result, ok, err, plain}
use eudi_verifier_core.Libraries.{CredentialQuery}
use eudi_verifier_core.TestWallet.{PresentSpec, FaultOption, resolve_spec}

-- `RequestObject`, with a key type `K`.
pub record RequestObject (K : Type 0) : Type 0 where
  pub raw : Bytes
  pub client_id : String
  pub nonce : String
  pub state : String
  pub response_uri : String
  pub query : Option (List CredentialQuery)
  pub encryption_key : K
  pub expected_origins : List String

-- What `BuildResponse`, `Respond` and `ParseDCAPIRequest` call, over the state `W` of the wallet and
-- of its client: `present`, the JSON and JWE codecs, the client, and the two parsers of requests.
pub record Calls (K W : Type 0) : Type 0 where
  pub present : RequestObject K → CredentialQuery → PresentSpec → W → Result String × W
  pub marshal_payload : GoMap (List String) → (state : String) → Result Bytes
  pub encrypt : K → Bytes → Result String
  pub marshal_response : String → Result Bytes
  pub post_json : (url : String) (body : Bytes) (origin : String) → W → Result (ℕ × Bytes) × W
  pub post_form : (url response : String) → W → Result (ℕ × Bytes) × W
  -- the members "protocol" and "data" of an envelope, and "request" of its data
  pub unmarshal_member : Bytes → Result (String × Bytes)
  pub unmarshal_request : Bytes → Result String
  pub parse_request_object : Bytes → Result (RequestObject K)
  pub parse_request_claims : (payload raw : Bytes) → Result (RequestObject K)

abbrev prefixed : Bytes → GoError → GoError
prefixed text e = record e { message = text ++ e.message }

-- The variables of the loop.
pub record Filled : Type 0 where
  pub vp_token : GoMap (List String)
  pub first_presentation : String

-- The variables before the loop.
abbrev pub unfilled : Filled
unfilled = record { vp_token = λ id. none; first_presentation = "" }

-- The presentation that a round puts down.
unfoldable pub chosen : PresentSpec → Filled → (pres : String) → String
chosen spec f pres =
    if spec.duplicate_credential && not (str_eq f.first_presentation "")
    then f.first_presentation
    else pres

unfoldable pub put_down : PresentSpec → String → Filled → (pres : String) → Filled
unfolding chosen
put_down spec id f pres = record {
  vp_token = assign f.vp_token id (chosen spec f pres ∷ []);
  first_presentation =
      if str_eq f.first_presentation "" then chosen spec f pres else f.first_presentation;
}

unfoldable pub asks_extra : PresentSpec → List CredentialQuery → Option CredentialQuery
asks_extra spec [] = none
asks_extra spec (cq ∷ queries) = if str_eq spec.extra_credential_id "" then none else some cq

unfoldable pub state_of : {K : Type 0} → RequestObject K → PresentSpec → String
state_of ro spec = if spec.wrong_state then text_append ro.state "-tampered" else ro.state

module _ {K W : Type 0} (c : Calls K W) where
  -- The loop over the credential queries.
  unfoldable pub fill :
      RequestObject K → PresentSpec → List CredentialQuery → Filled → W → Result Filled × W
  unfolding put_down
  fill ro spec [] f w = (ok f, w)
  fill ro spec (cq ∷ queries) f w =
      let (r, v) = c.present ro cq spec w in
      elim r [
        | err e ↦
            (err (prefixed (bytes "testwallet: present " ++ (bytes cq.id ++ bytes ": ")) e), v)
        | ok pres ↦ fill ro spec queries (put_down spec cq.id f pres) v
      ]

  -- The credential under an id that was not asked for.
  unfoldable pub extra :
      RequestObject K
      → PresentSpec
      → Option CredentialQuery
      → Result Filled × W
      → Result (GoMap (List String)) × W
  extra ro spec asked (err e, w) = (err e, w)
  extra ro spec none (ok f, w) = (ok f.vp_token, w)
  extra ro spec (some cq) (ok f, w) =
      let (r, v) = c.present ro cq spec w in
      elim r [
        | err e ↦ (
          err (
              prefixed
                (bytes "testwallet: present extra "
                  ++ (bytes spec.extra_credential_id ++ bytes ": "))
                e),
          v,
        )
        | ok pres ↦ (ok (assign f.vp_token spec.extra_credential_id (pres ∷ [])), v)
      ]

  seal : RequestObject K → PresentSpec → Result (GoMap (List String)) × W → Result String × W
  unfolding state_of
  seal ro spec (err e, w) = (err e, w)
  seal ro spec (ok vp_token, w) = elim (c.marshal_payload vp_token (state_of ro spec)) [
    | err e ↦ (err e, w)
    | ok payload ↦ (c.encrypt ro.encryption_key payload, w)
  ]

  -- The object that answers the queries, as it is encrypted.
  unfoldable pub vp_token_of :
      RequestObject K → PresentSpec → List CredentialQuery → W → Result (GoMap (List String)) × W
  unfolding fill asks_extra extra
  vp_token_of ro spec queries w =
      extra ro spec (asks_extra spec queries) (fill ro spec queries unfilled w)

  -- `BuildResponse`: the value of the form's "response".
  unfoldable pub build_response : RequestObject K → List FaultOption → W → Result String × W
  unfolding vp_token_of seal resolve_spec
  build_response ro opts w = elim ro.query [
    | none ↦ (err (plain (bytes "testwallet: request object has no dcql query")), w)
    | some queries ↦ let spec = resolve_spec opts in seal ro spec (vp_token_of ro spec queries w)
  ]

  sent : RequestObject K → PresentSpec → Result String × W → Result (ℕ × Bytes) × W
  sent ro spec (err e, w) = (err e, w)
  sent ro spec (ok response, w) =
      if not (str_eq spec.dcapi_origin "")
      then elim (c.marshal_response response) [
        | err e ↦ (err e, w)
        | ok body ↦ c.post_json ro.response_uri body spec.dcapi_origin w
      ]
      else c.post_form ro.response_uri response w

  -- `Respond`
  unfoldable pub respond : RequestObject K → List FaultOption → W → Result (ℕ × Bytes) × W
  unfolding build_response resolve_spec sent
  respond ro opts w = sent ro (resolve_spec opts) (build_response ro opts w)

  at_uri : (response_uri : String) → Result (RequestObject K) → Result (RequestObject K)
  at_uri uri (err e) = err e
  at_uri uri (ok ro) = ok (record ro { response_uri = uri })

  parsed : (protocol : String) (data_ : Bytes) (request : String) → Result (RequestObject K)
  parsed protocol data_ request =
      if not (str_eq request "")
      then c.parse_request_object (bytes request)
      else if str_eq protocol "openid4vp-v1-unsigned"
      then c.parse_request_claims data_ data_
      else err (
          plain (
            bytes "testwallet: dcapi request member "
            ++ (quote protocol
                ++ bytes " carries neither a signed request nor unsigned parameters")))

  -- `ParseDCAPIRequest`
  unfoldable pub parse_dcapi_request :
      (member : Bytes) (response_uri : String) → Result (RequestObject K)
  unfolding parsed at_uri
  parse_dcapi_request member uri = elim (c.unmarshal_member member) [
    | err e ↦ err (prefixed (bytes "testwallet: dcapi request member: ") e)
    | ok (protocol, data_) ↦ elim (c.unmarshal_request data_) [
      | err e ↦ err (prefixed (bytes "testwallet: dcapi request member data: ") e)
      | ok request ↦ at_uri uri (parsed protocol data_ request)
    ]
  ]
