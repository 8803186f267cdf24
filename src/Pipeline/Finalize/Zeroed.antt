-- ===== src/Pipeline/Finalize/Zeroed.antt =====
-- What `Zero` leaves in memory, whichever way `Finalize` returns.
use mathlib.Core.Option
use eudi_verifier_core.Prelude.{
  Option, none, some, List, [], ◌∷◌, ◌≡◌, refl, map, All, Bytes, String,
}
use eudi_verifier_core.Claims.{Claims, Value, leaf, node, nil, entry}
use eudi_verifier_core.Libraries.{Presentation, VerifiedCredential, VerifiedDocument}
use eudi_verifier_core.Pipeline.Context.{
  Credential, claims, format_claims, namespace_claims, ResultCredential, RunResult, Services,
  PipelineContext,
}
use eudi_verifier_core.Pipeline.Finalize.{
  zero_presentation, zero_credential, clear_sd, clear_md, zero_bytes, clear_map, zero_result,
  zero_context, finalize,
}

-- Claims without a single disclosed value.
unfoldable mutual
  pub HasNoValue : Claims → Type 0
  HasNoValue nil = Unit
  HasNoValue (entry k v rest) = IsHollow v × HasNoValue rest

  pub IsHollow : Value → Type 0
  IsHollow (leaf v) = ⊥
  IsHollow (node c) = HasNoValue c

abbrev pub IsBlank : Bytes → Type 0
IsBlank b = All (λ n. n ≡ 0) b

-- A context in which no attribute value is left.
pub record IsWiped {W : Type 0} (pc : PipelineContext W) : Type 0 where
  pub body : IsBlank pc.raw_body
  pub presented : All (λ (p : Presentation). IsBlank p.payload) pc.presentations
  pub payloads : All (λ (c : Credential). IsBlank c.pres.payload) pc.credentials
  pub disclosed : All (λ c. HasNoValue (claims c)) pc.credentials

zero_bytes-IsBlank : (b : Bytes) → IsBlank (zero_bytes b)
unfolding zero_bytes
zero_bytes-IsBlank [] = tt
zero_bytes-IsBlank (n ∷ b) = (refl, zero_bytes-IsBlank b)

All-map :
    {A : Type 0} (P : A → Type 0) (f : A → A)
    → ((x : A) → P (f x))
    → (xs : List A) → All P (map f xs)
All-map P f h [] = tt
All-map P f h (x ∷ xs) = (h x, All-map P f h xs)

namespaces-HasNoValue :
    (nss : List (String × Claims))
    → HasNoValue (namespace_claims (map (λ (ns, elems). (ns, clear_map elems)) nss))
unfolding namespace_claims clear_map HasNoValue
namespaces-HasNoValue [] = tt
namespaces-HasNoValue ((ns, elems) ∷ nss) = (tt, namespaces-HasNoValue nss)

format_claims-HasNoValue :
    (sd : Option VerifiedCredential) (md : Option VerifiedDocument)
    → HasNoValue (format_claims (Option.map clear_sd sd) (Option.map clear_md md))
unfolding format_claims clear_sd clear_md clear_map HasNoValue
format_claims-HasNoValue (some sd) md = tt
format_claims-HasNoValue none (some md) = namespaces-HasNoValue md.namespaces
format_claims-HasNoValue none none = tt

module _ {W : Type 0} where
  zero_context-IsWiped : (pc : PipelineContext W) → IsWiped (zero_context pc)
  unfolding zero_context zero_credential zero_presentation claims
  zero_context-IsWiped pc = record {
    body = zero_bytes-IsBlank pc.raw_body;
    presented = All-map _ _ (λ p. zero_bytes-IsBlank p.payload) pc.presentations;
    payloads = All-map _ _ (λ c. zero_bytes-IsBlank c.pres.payload) pc.credentials;
    disclosed = All-map _ _ (λ c. format_claims-HasNoValue c.sd c.md) pc.credentials;
  }

-- Whatever the sink, the session store and the result are, and whether `Finalize` returns an error
-- or not, the context that it leaves holds no disclosed value: the bytes of the body and of every
-- payload are zeros, and no claim of a credential, however nested, has a value. The result that it
-- was given holds no claim either.
pub finalize-IsWiped :
    {W : Type 0} (sv : Services W) (pc : PipelineContext W) (res : RunResult)
    → IsWiped (finalize sv pc res).1
      × All (λ (r : ResultCredential). HasNoValue r.claims) (finalize sv pc res).2.credentials
unfolding finalize zero_result HasNoValue clear_map
finalize-IsWiped sv pc res = (zero_context-IsWiped _, All-map _ _ (λ r. tt) res.credentials)
