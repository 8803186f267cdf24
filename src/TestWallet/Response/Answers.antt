-- ===== src/TestWallet/Response/Answers.antt =====
-- What a response answers.
use eudi_verifier_core.Prelude.{
  String, Bool, false, Option, none, some, List, [], ◌∷◌, ◌≡◌, inl, inr, refl, ap, sym, ◌∙◌, All,
  All-imp, exists, GoMap, assign, assigned, str_eq, Bool-cases,
}
use eudi_verifier_core.Errors.{ok, Result-cases}
use eudi_verifier_core.Libraries.{CredentialQuery}
use eudi_verifier_core.TestWallet.{PresentSpec}
use eudi_verifier_core.TestWallet.Response.{
  RequestObject, Calls, Filled, put_down, fill, asks_extra, extra, vp_token_of, unfilled,
}

-- One presentation under an id.
abbrev pub Answered : GoMap (List String) → String → Type 0
Answered m id = (pres : String) × (m id ≡ some (pres ∷ []))

-- The id is one of the queries', or the one that is not asked for.
abbrev pub is_asked : List CredentialQuery → String → Bool
is_asked queries id = exists (λ (cq : CredentialQuery). str_eq id cq.id) queries

assign-Answered :
    (m : GoMap (List String)) (key pres id : String)
    → Answered m id
    → Answered (assign m key (pres ∷ [])) id
assign-Answered m key pres id (p, h) = elim (Bool-cases (str_eq id key)) [
  | inl e ↦ (pres, rw e refl)
  | inr e ↦ (p, rw e h)
]

module _ {K W : Type 0} (c : Calls K W) (ro : RequestObject K) (spec : PresentSpec) where
  -- Behind the loop each query is answered, what was answered stays so, and no other id is touched.
  record Fills (queries : List CredentialQuery) (f g : Filled) : Type 0 where
    asked : All (λ (cq : CredentialQuery). Answered g.vp_token cq.id) queries
    stays : (id : String) → Answered f.vp_token id → Answered g.vp_token id
    others : (id : String) → is_asked queries id ≡ false → g.vp_token id ≡ f.vp_token id

  put_down-others :
      (f : Filled) (key pres id : String)
      → str_eq id key ≡ false
      → (put_down spec key f pres).vp_token id ≡ f.vp_token id
  unfolding put_down
  put_down-others f key pres id e = rw e refl

  fill-Fills :
      (queries : List CredentialQuery) (f g : Filled) (w : W)
      → (fill c ro spec queries f w).0 ≡ ok g
      → Fills queries f g
  unfolding fill put_down
  fill-Fills [] f g w h =
      let same : f ≡ g = cc h in
      record {
        asked = tt;
        stays = λ id a. rw (sym same) a;
        others = λ id n. ap (λ (x : Filled). x.vp_token id) (sym same);
      }
  fill-Fills (cq ∷ queries) f g w h = elim (Result-cases (c.present ro cq spec w).0) [
    | inr (e, failed) ↦ absurd (cc (rw (failed, fill) at h))
    | inl (pres, made) ↦
        let next = put_down spec cq.id f pres in
        let rest = fill-Fills queries next g (c.present ro cq spec w).1 (rw (made, fill) at h) in
        record {
          asked = (rest.stays cq.id (_, assigned f.vp_token cq.id _), rest.asked);
          stays = λ id a. rest.stays id (assign-Answered f.vp_token cq.id _ id a);
          others = λ id n. elim (Bool-cases (str_eq id cq.id)) [
            | inl e ↦ absurd (cc (rw e at n))
            | inr e ↦ rest.others id (rw e at n) ∙ put_down-others f cq.id pres id e
          ];
        }
  ]

  extra-Answered :
      (asked : Option CredentialQuery) (f : Filled) (v : W) (m : GoMap (List String))
      → (extra c ro spec asked (ok f, v)).0 ≡ ok m
      → ((id : String) → Answered f.vp_token id → Answered m id)
        × ((id : String) → str_eq id spec.extra_credential_id ≡ false → m id ≡ f.vp_token id)
  unfolding extra
  extra-Answered none f v m h =
      let same : f.vp_token ≡ m = cc h in
      (λ id a. rw (sym same) a, λ id n. ap (λ (t : GoMap (List String)). t id) (sym same))
  extra-Answered (some cq) f v m h = elim (Result-cases (c.present ro cq spec v).0) [
    | inr (e, failed) ↦ absurd (cc (rw (failed, extra) at h))
    | inl (pres, made) ↦
        let same : assign f.vp_token spec.extra_credential_id (pres ∷ []) ≡ m =
          cc (rw (made, extra) at h) in
        (
          λ id a. rw (sym same) (assign-Answered f.vp_token spec.extra_credential_id pres id a),
          λ id n. ap (λ (t : GoMap (List String)). t id) (sym same) ∙ rw n refl,
        )
  ]

-- Whatever faults a test asks for, what the wallet encrypts has exactly one presentation under the id
-- of each credential query, and none under another id, but for the one that the test names.
pub vp_token_of-Answered :
    {K W : Type 0} (c : Calls K W) (ro : RequestObject K) (spec : PresentSpec)
    (queries : List CredentialQuery) (w : W) (m : GoMap (List String))
    → (vp_token_of c ro spec queries w).0 ≡ ok m
    → All (λ (cq : CredentialQuery). Answered m cq.id) queries
      × ((id : String)
          → is_asked queries id ≡ false
          → str_eq id spec.extra_credential_id ≡ false
          → m id ≡ none)
unfolding vp_token_of extra
vp_token_of-Answered c ro spec queries w m h =
    elim (Result-cases (fill c ro spec queries unfilled w).0) [
      | inr (e, failed) ↦ absurd (cc (rw (failed, vp_token_of, extra) at h))
      | inl (f, filled) ↦
          let all = fill-Fills c ro spec queries unfilled f w filled in
          let more =
            extra-Answered c ro spec (asks_extra spec queries) f
              (fill c ro spec queries unfilled w).1 m (rw (filled, vp_token_of, extra) at h) in
          (
            All-imp _ _ (λ (cq : CredentialQuery) a. more.0 cq.id a) queries all.asked,
            λ id n e. more.1 id e ∙ all.others id n,
          )
    ]
