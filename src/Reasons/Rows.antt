-- ===== src/Reasons/Rows.antt =====
-- The rows of the ten checks, as far as their codes go.
use eudi_verifier_core.Prelude.{
  String, Bool, Option, none, some, List, [], ◌∷◌, ◌||◌, ◌&&◌, ◌≡◌, ◌⊎◌, inl, inr, refl, sym,
  str_eq, Bool-cases, Option-cases, Sum-cases,
}
use eudi_verifier_core.Errors.{GoError, Result-cases}
use eudi_verifier_core.Libraries.{
  Libraries, Presentation, Format, sd_jwt, mdoc, other, StatusRef, StatusReply,
}
use eudi_verifier_core.Pipeline.Names
use eudi_verifier_core.Pipeline.Report.{CheckResult}
use eudi_verifier_core.Pipeline.Classify.{classify_format_error, safe_detail}
use eudi_verifier_core.Pipeline.Context.{Services, PipelineContext, Credential}
use eudi_verifier_core.Pipeline.Checks.Parse.{parse_all, parse_as, fail_parse}
use eudi_verifier_core.Pipeline.Checks.IssuerAuthenticity.{
  authenticate, attribute, binding_required,
}
use eudi_verifier_core.Pipeline.Checks.Revocation.{
  ruling, fails, skips, clear, check_status, Ruling, unavailable, is_revoked, is_unknown,
  skipped_short_lived, skipped_fail_open, apply, check_ref, check_evaluated, status_ref_of,
}
use eudi_verifier_core.Pipeline.Checks.DeviceBinding.{bind, bind_as}
use eudi_verifier_core.Reasons.Codes.{
  is_set, either, is_known, IsAccounted, fails_known, classify_format_error-HasKnown,
}

-- An early result of a loop is accounted for.
pub data OneIs : Option CheckResult → Type 0 where
  goes_on : OneIs none
  ends : {r : CheckResult} → IsAccounted r → OneIs (some r)

pub one_result : (o : Option CheckResult) (r : CheckResult) → OneIs o → o ≡ some r → IsAccounted r
one_result none r x h = absurd (cc h)
one_result (some s) r (ends x) h = let same : s ≡ r = cc h in rw (sym same) x

-- So is a ruling that fails.
data RulingIs : Ruling → Type 0 where
  of_fails : {r : CheckResult} → IsAccounted r → RulingIs (fails r)
  of_skips : RulingIs skips
  of_clear : RulingIs clear

module _ {W : Type 0} (pc : PipelineContext W) where
  -- The step that owns an error, if this one does.
  attributed :
      (lib : Libraries) (o : Option GoError) (cred : Credential) → OneIs (attribute lib pc o cred).0
  unfolding attribute
  attributed lib none cred = goes_on
  attributed lib (some e) cred =
      elim (Bool-cases (
        str_eq (classify_format_error e).0 Names.issuer_authenticity
        || str_eq (classify_format_error e).0 Names.parse)) [
          | inl s ↦
              rw (s, attribute)
                (ends (
                  fails_known (classify_format_error e).1 (safe_detail (some e))
                    (classify_format_error-HasKnown e).known))
          | inr s ↦ rw (s, attribute) goes_on
        ]

  bound_as : (f : Format) (any : Bool) (cred : Credential) → OneIs (bind_as pc f any cred).0
  unfolding bind_as
  bound_as mdoc any cred = goes_on
  bound_as (other name) any cred = goes_on
  bound_as sd_jwt any cred = elim (Bool-cases (binding_required pc cred.pres.query_cred_id)) [
    | inl e ↦ rw (e, bind_as) goes_on
    | inr e ↦ rw (e, bind_as) goes_on
  ]

  pub bound : (any : Bool) (cred : Credential) → OneIs (bind pc any cred).0
  unfolding bind is_known
  bound any cred = elim (Bool-cases (str_eq cred.deferred_step Names.device_binding)) [
    | inl e ↦ rw (e, bind) (ends (fails_known "err:credential:binding-failed" _ refl))
    | inr e ↦ rw (e, bind) (bound_as cred.pres.format any cred)
  ]

ruled :
    (fail_closed : Bool) (ref : StatusRef) (id : String) (reply : StatusReply)
    → RulingIs (ruling fail_closed ref id reply)
unfolding ruling is_known unavailable is_set
ruled fail_closed ref id reply =
    either RulingIs (str_eq reply.outcome skipped_short_lived) of_skips (
      either RulingIs (str_eq reply.outcome skipped_fail_open) of_skips
        (elim (Option-cases reply.error) [
          | inr (e, failed) ↦ rw failed (of_fails (record { accounts = λ f. refl; judged = refl }))
          | inl none_failed ↦ rw none_failed (
              either RulingIs (is_revoked reply.status)
                (of_fails (fails_known "err:revocation:revoked" _ refl))
                (either RulingIs (is_unknown reply.status && fail_closed)
                  (of_fails (record { accounts = λ f. refl; judged = refl })) of_clear))
        ]))

applied :
    {W : Type 0} (lib : Libraries) (sv : Services W) (pc : PipelineContext W) (x : Ruling) (w : W)
    (any : Bool) (cred : Credential)
    → RulingIs x
    → OneIs (apply lib sv pc x w any cred).0
unfolding apply
applied lib sv pc (fails r) w any cred (of_fails a) = ends a
applied lib sv pc skips w any cred x = goes_on
applied lib sv pc clear w any cred x = goes_on

checked_ref :
    {W : Type 0} (lib : Libraries) (sv : Services W) (pc : PipelineContext W) (o : Option StatusRef)
    (st : W × Bool) (cred : Credential)
    → OneIs (check_evaluated lib sv pc o st cred).0
unfolding check_evaluated check_ref
checked_ref lib sv pc none st cred = goes_on
checked_ref lib sv pc (some ref) (w, any) cred = applied lib sv pc _ _ any _ (ruled _ ref _ _)

pub checked :
    {W : Type 0} (lib : Libraries) (sv : Services W) (pc : PipelineContext W) (st : W × Bool)
    (cred : Credential)
    → OneIs (check_status lib sv pc st cred).0
unfolding check_status
checked lib sv pc st cred = elim (Bool-cases (str_eq cred.deferred_step Names.device_binding)) [
  | inl e ↦ rw (e, check_status) goes_on
  | inr e ↦ rw (e, check_status) (checked_ref lib sv pc (status_ref_of cred) st cred)
]

-- A presentation that does not parse.
data ParseIs : CheckResult ⊎ Credential → Type 0 where
  refused_row : {r : CheckResult} → IsAccounted r → ParseIs (inl r)
  read : {cred : Credential} → ParseIs (inr cred)

malformed : (id : String) (e : GoError) → IsAccounted (fail_parse id e)
unfolding fail_parse is_known
malformed id e = fails_known "err:credential:parse" _ refl

parsed_as : (lib : Libraries) (f : Format) (pres : Presentation) → ParseIs (parse_as lib f pres)
unfolding parse_as
parsed_as lib sd_jwt pres = elim (Result-cases (lib.peek pres.payload)) [
  | inr (e, h) ↦ rw (h, parse_as) (refused_row (malformed pres.query_cred_id e))
  | inl (peek, h) ↦ rw (h, parse_as) read
]
parsed_as lib mdoc pres = elim (Option-cases (lib.decode_device_response pres.payload)) [
  | inr (e, h) ↦ rw (h, parse_as) (refused_row (malformed pres.query_cred_id e))
  | inl h ↦ rw (h, parse_as) read
]
parsed_as lib (other name) pres = refused_row (malformed pres.query_cred_id _)

parsed_row :
    (x : CheckResult ⊎ Credential) (r : CheckResult) → ParseIs x → x ≡ inl r → IsAccounted r
parsed_row (inl s) r (refused_row a) h = let same : s ≡ r = cc h in rw (sym same) a
parsed_row (inr cred) r x h = absurd (cc h)

-- The loop over the presentations.
pub parsed_all :
    (lib : Libraries) (done : List Credential) (todo : List Presentation)
    → OneIs (parse_all lib done todo).0
unfolding parse_all
parsed_all lib done [] = goes_on
parsed_all lib done (pres ∷ todo) = elim (Sum-cases (parse_as lib pres.format pres)) [
  | inl (r, h) ↦ rw (h, parse_all) (ends (parsed_row _ r (parsed_as lib pres.format pres) h))
  | inr (cred, h) ↦ rw (h, parse_all) (parsed_all lib _ todo)
]

-- One round of step 3.
pub authenticated :
    {W : Type 0} (lib : Libraries) (pc : PipelineContext W) (u : Unit {0}) (cred : Credential)
    → OneIs (authenticate lib pc u cred).0
unfolding authenticate
authenticated lib pc u cred = attributed pc lib _ _
