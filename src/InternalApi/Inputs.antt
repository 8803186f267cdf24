-- ===== src/InternalApi/Inputs.antt =====
-- Which requests `buildCreateInput` accepts, and with what input.
use eudi_verifier_core.Prelude.{
  String, Bool, true, false, Option, none, some, List, [], ◌∷◌, ◌≡◌, ◌≢◌, inl, inr, refl, arith,
  All, str_eq, eq_iff, Bool-cases, is_none, not,
}
use eudi_verifier_core.Errors.{Result, ok, err, Result-cases}
use eudi_verifier_core.Libraries.{Flow, same_device, cross_device, dcapi}
use eudi_verifier_core.SessionCreator.{flow_name}
use eudi_verifier_core.InternalApi.{
  Url, Decoders, ParamError, Checked, refused, taken, ◌>>=◌, holds_or, value_or, flow_of, is_empty,
  https_url, valid_https_url, web_origin, valid_web_origin, origins_ok, check_origins,
  check_redirect,
}

-- A chain that is taken was taken at every link.
pub bind-taken :
    {A B : Type 0} (m : Checked A) (f : A → Checked B) (b : B)
    → (m >>= f) ≡ taken b
    → (a : A) × (m ≡ taken a) × (f a ≡ taken b)
bind-taken (refused e) f b h = absurd (cc h)
bind-taken (taken a) f b h = (a, refl, h)

pub holds_or-taken : (t : Bool) (e : ParamError) (u : Unit) → holds_or t e ≡ taken u → t ≡ true
holds_or-taken true e u h = refl
holds_or-taken false e u h = absurd (cc h)

pub holds-taken :
    {B : Type 0} (t : Bool) (e : ParamError) (m : Checked B) (b : B)
    → (holds_or t e >>= (λ u. m)) ≡ taken b
    → (t ≡ true) × (m ≡ taken b)
holds-taken true e m b h = (refl, h)
holds-taken false e m b h = absurd (cc h)

pub value_or-taken :
    {A : Type 0} (r : Result A) (e : ParamError) (a : A) → value_or r e ≡ taken a → r ≡ ok a
value_or-taken (ok b) e a h = cc h
value_or-taken (err x) e a h = absurd (cc h)

pub nonempty_text : (s : String) → not (str_eq s "") ≡ true → s ≢ ""
nonempty_text s h same = ground (arith, eq_iff s "")

pub flow_of-named :
    (s : String) (e : ParamError) (f : Flow) → flow_of s e ≡ taken f → flow_name f ≡ s
unfolding flow_of
flow_of-named s e same_device h =
    ground (arith, eq_iff s "same_device", eq_iff s "cross_device", eq_iff s "dcapi")
flow_of-named s e cross_device h =
    ground (arith, eq_iff s "same_device", eq_iff s "cross_device", eq_iff s "dcapi")
flow_of-named s e dcapi h =
    ground (arith, eq_iff s "same_device", eq_iff s "cross_device", eq_iff s "dcapi")

flow_of-name : (f : Flow) (e : ParamError) → flow_of (flow_name f) e ≡ taken f
unfolding flow_of
flow_of-name same_device e = refl
flow_of-name cross_device e = refl
flow_of-name dcapi e = refl

pub is_none-none : {A : Type 0} (o : Option A) → is_none o ≡ true → o ≡ none
is_none-none none h = refl
is_none-none (some a) h = absurd (cc h)

is_empty-nil : {A : Type 0} (xs : List A) → is_empty xs ≡ true → xs ≡ []
is_empty-nil [] h = refl
is_empty-nil (x ∷ xs) h = absurd (cc h)

pub nonempty_list : {A : Type 0} (xs : List A) → not (is_empty xs) ≡ true → xs ≢ []
nonempty_list xs h same = absurd (cc (rw same at h))

-- An absolute https URL, and a bare https origin, of a parsed URL.
pub record IsHttps (u : Url) : Type 0 where
  pub scheme : u.scheme ≡ "https"
  pub host : u.host ≢ ""

pub record IsOrigin (u : Url) : Type 0 where
  pub https : IsHttps u
  pub path : u.path ≡ ""
  pub raw_query : u.raw_query ≡ ""
  pub fragment : u.fragment ≡ ""
  pub has_user : u.has_user ≡ false

module _ (d : Decoders) where
  abbrev pub IsHttpsUrl : String → Type 0
  IsHttpsUrl raw = (raw ≢ "") × ((u : Url) × (d.parse_url raw ≡ ok u) × IsHttps u)

  abbrev pub IsWebOrigin : String → Type 0
  IsWebOrigin raw = (u : Url) × (d.parse_url raw ≡ ok u) × IsOrigin u

  https_url-IsHttps : (u : Url) → https_url d (ok u) ≡ true → IsHttps u
  unfolding https_url
  https_url-IsHttps u h = record {
    scheme = ground (arith, eq_iff u.scheme "https");
    host = λ e. ground (arith, eq_iff u.host "");
  }

  web_origin-IsOrigin : (u : Url) → web_origin d (ok u) ≡ true → IsOrigin u
  unfolding web_origin
  web_origin-IsOrigin u h = record {
    https = record {
      scheme = ground (arith, eq_iff u.scheme "https");
      host = λ e. ground (arith, eq_iff u.host "");
    };
    path = ground (arith, eq_iff u.path "");
    raw_query = ground (arith, eq_iff u.raw_query "");
    fragment = ground (arith, eq_iff u.fragment "");
    has_user = ground arith;
  }

  valid_https_url-IsHttpsUrl : (raw : String) → valid_https_url d raw ≡ true → IsHttpsUrl raw
  unfolding valid_https_url
  valid_https_url-IsHttpsUrl raw h = elim (Bool-cases (str_eq raw "")) [
    | inl e ↦ absurd (cc (rw (e, valid_https_url) at h))
    | inr e ↦ elim (Result-cases (d.parse_url raw)) [
      | inr (x, p) ↦ absurd (cc (rw (e, p, valid_https_url, https_url) at h))
      | inl (u, p) ↦ (
        (λ same. ground (arith, eq_iff raw "")),
        (u, p, https_url-IsHttps u (rw (e, p, valid_https_url) at h)),
      )
    ]
  ]

  valid_web_origin-IsWebOrigin : (raw : String) → valid_web_origin d raw ≡ true → IsWebOrigin raw
  unfolding valid_web_origin
  valid_web_origin-IsWebOrigin raw h = elim (Result-cases (d.parse_url raw)) [
    | inr (x, p) ↦ absurd (cc (rw (p, valid_web_origin, web_origin) at h))
    | inl (u, p) ↦ (u, p, web_origin-IsOrigin u (rw (p, valid_web_origin) at h))
  ]

  origins_ok-All : (os : List String) → origins_ok d os ≡ true → All IsWebOrigin os
  unfolding origins_ok
  origins_ok-All [] h = tt
  origins_ok-All (o ∷ os) h = elim (Bool-cases (valid_web_origin d o)) [
    | inl e ↦ (valid_web_origin-IsWebOrigin o e, origins_ok-All os (rw (e, origins_ok) at h))
    | inr e ↦ absurd (cc (rw (e, origins_ok) at h))
  ]

  -- The origins that a flow may carry.
  pub MayCome : Flow → List String → Type 0
  MayCome dcapi os = (os ≢ []) × All IsWebOrigin os
  MayCome same_device os = os ≡ []
  MayCome cross_device os = os ≡ []

  pub check_origins-MayCome :
      (f : Flow) (os : List String) (u : Unit) → check_origins d f os ≡ taken u → MayCome f os
  unfolding check_origins MayCome
  check_origins-MayCome dcapi os u h =
      let (some_given, rest) = holds-taken _ _ _ _ h in
      (nonempty_list os some_given, origins_ok-All os (holds_or-taken _ _ _ rest))
  check_origins-MayCome same_device os u h = is_empty-nil os (holds_or-taken _ _ _ h)
  check_origins-MayCome cross_device os u h = is_empty-nil os (holds_or-taken _ _ _ h)

  -- Where the browser may be sent back to.
  pub MayReturn : Flow → String → Type 0
  MayReturn same_device uri = IsHttpsUrl uri
  MayReturn cross_device uri = Unit
  MayReturn dcapi uri = Unit

  pub check_redirect-MayReturn :
      (f : Flow) (uri : String) (u : Unit) → check_redirect d f uri ≡ taken u → MayReturn f uri
  unfolding check_redirect MayReturn
  check_redirect-MayReturn same_device uri u h =
      valid_https_url-IsHttpsUrl uri (holds_or-taken _ _ _ (holds-taken _ _ _ _ h).1)
  check_redirect-MayReturn cross_device uri u h = tt
  check_redirect-MayReturn dcapi uri u h = tt
