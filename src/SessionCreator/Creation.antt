-- ===== src/SessionCreator/Creation.antt =====
-- What a created session was issued with.
use mathlib.Core.Path.{subst}
use eudi_verifier_core.Prelude.{
  refl, Option-cases, ◌≤◌, String, true, false, Option, none, some, ◌≡◌, ◌⊎◌, inl, inr, arith, sym,
  ap, ◌∙◌, Time, Duration, pos, negsuc, add_time, str_eq, eq_iff, Bool-cases, ◌&&◌, not, Bytes,
  text_append,
}
use eudi_verifier_core.Errors.{GoError, ok, Result-cases}
use eudi_verifier_core.Libraries.{Flow, dcapi, Session}
use eudi_verifier_core.Policy.{ClientPolicy}
use eudi_verifier_core.SessionCreator.Asking.{
  Asks, IsClamped, request_spec-Asks, effective_ttl-IsClamped,
}
use eudi_verifier_core.SessionCreator.{
  RequestSpec, row_input, flow_name, CreateInput, Invocation, Created, Creator,
  signed_dcapi_required, effective_ttl, response_url, request_spec, invocation_of, created_of,
  create, minted, saved, routed, recorded, is_dcapi,
}

-- The deployment issues unsigned browser requests, or leaves it to a client that decided so.
abbrev pub MayBeUnsigned : String → ClientPolicy → Type 0
MayBeUnsigned mode p =
    (mode ≡ "unsigned") ⊎ ((mode ≡ "both") × (p.require_signed_dcapi_p ≡ some false))

signed-MayBeUnsigned :
    (mode : String) (p : ClientPolicy) → signed_dcapi_required mode p ≡ false → MayBeUnsigned mode p
unfolding signed_dcapi_required
signed-MayBeUnsigned mode p h = elim (Bool-cases (str_eq mode "unsigned")) [
  | inl e ↦ inl ((eq_iff mode "unsigned").0 e)
  | inr e ↦ inr (ground (arith, eq_iff mode "both"), ground arith)
]

-- A caller's lifetime never ends later than the configured one.
effective_in_time :
    (now : Time) (configured asked : Duration)
    → add_time now (effective_ttl configured asked) ≤ add_time now configured
unfolding effective_ttl
effective_in_time now configured (negsuc m) = omega arith
effective_in_time now (negsuc n) (pos m) = ground arith
effective_in_time now (pos n) (pos m) = ground arith

flow_dcapi : (f : Flow) → is_dcapi f ≡ true → f ≡ dcapi
unfolding is_dcapi
flow_dcapi f h = ground arith

module _ {W : Type 0} (c : Creator W) where
  -- The invocation that is handed out is the engine's own, or has the unsigned browser request in
  -- its place where that is allowed.
  abbrev pub Chosen : CreateInput → Session → Invocation → Invocation → Type 0
  Chosen input sess inv chosen =
      (chosen ≡ inv)
      ⊎ ((input.flow ≡ dcapi)
          × MayBeUnsigned c.dcapi_mode input.policy
          × (c.dcapi_unsigned_request sess ≡ ok chosen.dcapi_member)
          × (chosen.link ≡ inv.link))

  -- What the three stores were given for a created session, in this order, each without an error.
  pub record Kept (input : CreateInput) (token : String) (lifetime : Duration) (sess : Session)
      (created : Created) (w : W) : Type 0 where
    pub policy : Bytes
    pub marshalled : c.marshal_policy input.policy ≡ ok policy
    pub saved_session : (c.save sess w).0 ≡ none
    pub put_token : (c.put token created.session_id lifetime (c.save sess w).1).0 ≡ none
    pub put_row :
        (c.create_row
          (record {
            id = created.session_id;
            client_id = input.client_id;
            correlation_id = input.correlation_id;
            flow = flow_name input.flow;
            policy = policy;
            webhook_url = input.webhook_url;
            redirect_uri = input.redirect_uri;
            expires_at = created.expires_at;
          })
          (c.put token created.session_id lifetime (c.save sess w).1).1).0
        ≡ none

  pub record Issued (input : CreateInput) (token : String) (now : Time) (w : W) (created : Created)
      : Type 0 where
    pub spec : RequestSpec
    pub sess : Session
    pub inv : Invocation
    pub lifetime : Duration
    pub asks : Asks c.base_url input token spec
    pub asked : c.new_session spec ≡ ok (sess, inv)
    pub same_session : created.session_id ≡ sess.id
    pub fetched_from :
        created.request_uri
        ≡ text_append c.base_url (text_append "/wallet/" (text_append sess.id "/request.jwt"))
    pub routed_by :
        created.response_uri
        ≡ text_append c.base_url (text_append "/wallet/" (text_append token "/response"))
    pub chosen : Chosen input sess inv created.invocation
    pub clamped : IsClamped c.ttl input.ttl lifetime
    pub expires : created.expires_at ≡ add_time now lifetime
    pub in_time : created.expires_at ≤ add_time now c.ttl
    pub kept : Kept input token lifetime sess created w

  recorded-ok :
      (made created : Created) (r : Option GoError × W)
      → (recorded c made r).0 ≡ ok created
      → (made ≡ created) × (r.0 ≡ none)
  unfolding recorded
  recorded-ok made created (some e, w) h = cc h
  recorded-ok made created (none, w) h = (cc h, refl)

  routed-ok :
      (input : CreateInput) (made created : Created) (r : Option GoError × W)
      → (routed c input made r).0 ≡ ok created
      → (made ≡ created)
        × (r.0 ≡ none)
        × ((policy : Bytes) × (c.marshal_policy input.policy ≡ ok policy)
            × ((c.create_row (row_input c input made.session_id policy made.expires_at) r.1).0
                ≡ none))
  unfolding routed
  routed-ok input made created (some e, w) h = cc h
  routed-ok input made created (none, w) h = elim (Result-cases (c.marshal_policy input.policy)) [
    | inr (e, m) ↦ absurd (cc (rw (m, routed) at h))
    | inl (policy, m) ↦
        let (same, stored) = recorded-ok made created _ (rw (m, routed) at h) in
        (same, refl, (policy, m, stored))
  ]

  saved-ok :
      (input : CreateInput) (token : String) (ttl : Duration) (made created : Created)
      (sess : Session) (w : W)
      → (saved c input token ttl made (c.save sess w)).0 ≡ ok created
      → (made ≡ created) × Kept input token ttl sess made w
  unfolding saved row_input
  saved-ok input token ttl made created sess w h = elim (Option-cases (c.save sess w).0) [
    | inr (e, f) ↦ absurd (cc (rw (f, saved) at h))
    | inl f ↦
        let (same, put, (policy, m, stored)) =
          routed-ok input made created (c.put token made.session_id ttl (c.save sess w).1)
            (rw (f, saved) at h) in
        (
          same,
          record {
            policy = policy;
            marshalled = m;
            saved_session = f;
            put_token = put;
            put_row = stored;
          },
        )
  ]

  unsigned-Chosen :
      (input : CreateInput) (sess : Session) (inv : Invocation) (member : Bytes)
      (chosen : Invocation)
      → c.dcapi_unsigned_request sess ≡ ok member
      → record inv { dcapi_member = member } ≡ chosen
      → input.flow ≡ dcapi
      → MayBeUnsigned c.dcapi_mode input.policy
      → Chosen input sess inv chosen
  unsigned-Chosen input sess inv member chosen m same flow may = inr (
    flow,
    may,
    m ∙ ap (λ (i : Invocation). ok i.dcapi_member) same,
    sym (ap (λ (i : Invocation). i.link) same),
  )

  invocation-Chosen :
      (input : CreateInput) (sess : Session) (inv chosen : Invocation)
      → invocation_of c input sess inv ≡ ok chosen
      → Chosen input sess inv chosen
  unfolding invocation_of
  invocation-Chosen input sess inv chosen h =
      elim (Bool-cases
        (is_dcapi input.flow && not (signed_dcapi_required c.dcapi_mode input.policy))) [
          | inr e ↦ inl (cc (rw (e, invocation_of) at h))
          | inl e ↦ elim (Result-cases (c.dcapi_unsigned_request sess)) [
            | inr (failed, m) ↦ absurd (cc (rw (e, m, invocation_of) at h))
            | inl (member, m) ↦
                unsigned-Chosen input sess inv member chosen m (cc (rw (e, m, invocation_of) at h))
                  (flow_dcapi input.flow (ground arith))
                  (signed-MayBeUnsigned c.dcapi_mode input.policy (ground arith))
          ]
        ]

  issue :
      (input : CreateInput) (token : String) (now : Time) (w : W) (sess : Session)
      (inv chosen : Invocation)
      → c.new_session (request_spec input (response_url c.base_url token)) ≡ ok (sess, inv)
      → invocation_of c input sess inv ≡ ok chosen
      → Kept input token
          (effective_ttl c.ttl input.ttl)
          sess
          (created_of c input token now sess chosen)
          w
      → Issued input token now w (created_of c input token now sess chosen)
  unfolding created_of response_url
  issue input token now w sess inv chosen asked i kept = record {
    spec = request_spec input (response_url c.base_url token);
    sess = sess;
    inv = inv;
    lifetime = effective_ttl c.ttl input.ttl;
    asks = request_spec-Asks c.base_url input token;
    asked = asked;
    same_session = refl;
    fetched_from = refl;
    routed_by = refl;
    chosen = invocation-Chosen input sess inv chosen i;
    clamped = effective_ttl-IsClamped c.ttl input.ttl;
    expires = refl;
    in_time = effective_in_time now c.ttl input.ttl;
    kept = kept;
  }

  minted-Issued :
      (input : CreateInput) (token : String) (now : Time) (sess : Session) (inv : Invocation)
      (w : W) (created : Created)
      → c.new_session (request_spec input (response_url c.base_url token)) ≡ ok (sess, inv)
      → (minted c input token now (sess, inv) w).0 ≡ ok created
      → Issued input token now w created
  unfolding minted
  minted-Issued input token now sess inv w created asked h =
      elim (Result-cases (invocation_of c input sess inv)) [
        | inr (e, i) ↦ absurd (cc (rw (i, minted) at h))
        | inl (chosen, i) ↦
            let (same, kept) =
              saved-ok input token (effective_ttl c.ttl input.ttl) _ created sess w
                (rw (i, minted) at h) in
            subst (Issued input token now w) same
              (issue input token now w sess inv chosen asked i kept)
      ]

pub create-Issued :
    {W : Type 0} (c : Creator W) (input : CreateInput) (token : String) (now : Time) (w : W)
    (created : Created)
    → (create c input (ok token) now w).0 ≡ ok created
    → Issued c input token now w created
unfolding create
create-Issued c input token now w created h =
    elim (Result-cases (c.new_session (request_spec input (response_url c.base_url token)))) [
      | inr (e, asked) ↦ absurd (cc (rw (asked, create) at h))
      | inl ((sess, inv), asked) ↦
          minted-Issued c input token now sess inv w created asked (rw (asked, create) at h)
    ]
