-- ===== src/Processor/Answers.antt =====
-- What an answer of `Process` stands on.
use eudi_verifier_core.Prelude.{
  String, Option, none, some, [], ◌≡◌, ◌≢◌, arith, inl, inr, refl, Bytes, str_eq, eq_iff,
  Bool-cases,
}
use eudi_verifier_core.Errors.{GoError, Result, ok, err, Result-cases}
use eudi_verifier_core.Libraries.{Session}
use eudi_verifier_core.Policy.{ClientPolicy, parse_policy}
use eudi_verifier_core.Pipeline.Report.{Report}
use eudi_verifier_core.Pipeline.Context.{SessionRow, PipelineContext, new_context}
use eudi_verifier_core.Pipeline.Report.{new_builder}
use eudi_verifier_core.Pipeline.Engine.{run}
use eudi_verifier_core.Pipeline.Finalize.Zeroed.{IsWiped, finalize-IsWiped}
use eudi_verifier_core.Pipeline.Production.{production}
use eudi_verifier_core.Pipeline.Production.Verified.{StandsOn, production-verified}
use eudi_verifier_core.WalletErrors.{wallet_fail_problem}
use eudi_verifier_core.Processor.{
  App, refuse, decide, reported, report, judge, process, prepared, with_world,
}

module _ {W : Type 0} (app : App W) where
  decide-verified :
      (rep : Report) (pc : PipelineContext W) (uri : String)
      → (decide app rep pc).0 ≡ ok uri
      → rep.outcome ≡ "verified"
  unfolding decide refuse
  decide-verified rep pc uri h = elim (Bool-cases (str_eq rep.outcome "verified")) [
    | inl e ↦ (eq_iff rep.outcome "verified").0 e
    | inr e ↦ absurd (cc (rw (e, decide, refuse) at h))
  ]

  reported-verified :
      (rep : Report) (pc : PipelineContext W) (saved : Option GoError × W) (uri : String)
      → (reported app rep pc saved).0 ≡ ok uri
      → rep.outcome ≡ "verified"
  unfolding reported
  reported-verified rep pc (some e, w) uri h = cc h
  reported-verified rep pc (none, w) uri h = decide-verified rep (with_world app pc w) uri h

  report-verified :
      (rep : Report) (pc : PipelineContext W) (uri : String)
      → (report app rep pc).0 ≡ ok uri
      → rep.outcome ≡ "verified"
  unfolding report
  report-verified rep pc uri h = elim (Result-cases (app.marshal_report rep)) [
    | inl (raw, m) ↦
        reported-verified rep pc (app.save_report pc.session_id raw pc.world) uri
          (rw (m, report) at h)
    | inr (e, m) ↦ decide-verified rep pc uri (rw (m, report) at h)
  ]

  judge-verified :
      (pc : PipelineContext W) (uri : String)
      → (judge app pc).0 ≡ ok uri
      → (run (production app.libraries app.services) pc).0.outcome ≡ "verified"
  unfolding judge
  judge-verified pc uri h =
      report-verified (run (production app.libraries app.services) pc).0
        (run (production app.libraries app.services) pc).1 uri h

  -- The context that a run starts from, part by part.
  pub record IsPrepared (sess : Session) (body : Bytes) (origin : String) (meta : SessionRow)
      (policy : ClientPolicy) (w : W) (start : PipelineContext W) : Type 0 where
    pub session_id : start.session_id ≡ sess.id
    pub session : start.session ≡ sess
    pub row : start.meta ≡ meta
    pub raw_body : start.raw_body ≡ body
    pub client : start.policy ≡ policy
    pub browser : meta.flow ≡ "dcapi" → start.origin ≡ origin
    pub no_browser : meta.flow ≢ "dcapi" → start.origin ≡ ""
    pub cred_trust : start.cred_trust ≡ app.cred_trust
    pub issuer_validity : start.issuer_validity ≡ app.issuer_validity
    pub no_presentation : start.presentations ≡ []
    pub no_credential : start.credentials ≡ []
    pub no_code : start.response_code ≡ ""
    pub no_row : start.report.checks ≡ []
    pub world : start.world ≡ w

  prepared-IsPrepared :
      (sess : Session) (body : Bytes) (origin : String) (meta : SessionRow) (policy : ClientPolicy)
      (w : W)
      → IsPrepared sess body origin meta policy w (prepared app sess body origin meta policy w)
  unfolding prepared new_context new_builder
  prepared-IsPrepared sess body origin meta policy w = record {
    session_id = refl;
    session = refl;
    row = refl;
    raw_body = refl;
    client = refl;
    browser = λ e. ground (arith, e, eq_iff meta.flow "dcapi");
    no_browser = λ e. ground (arith, e, eq_iff meta.flow "dcapi");
    cred_trust = refl;
    issuer_validity = refl;
    no_presentation = refl;
    no_credential = refl;
    no_code = refl;
    no_row = refl;
    world = refl;
  }

  -- The run behind an answer of `Process`: the session's row and the client's policy were read, the
  -- engine ran from the context that they prepare, the answer is what followed this run, and the
  -- run ended verified and stands on `ready`.
  pub record Answered (sess : Session) (body : Bytes) (origin : String) (w : W) : Type 0 where
    pub meta : SessionRow
    pub policy : ClientPolicy
    pub start : PipelineContext W
    pub ready : PipelineContext W
    pub row_read : app.get_row sess.id w ≡ ok meta
    pub policy_read : parse_policy app.unmarshal_policy meta.policy ≡ ok policy
    pub from : IsPrepared sess body origin meta policy w start
    pub answer : process app sess body origin w ≡ ((judge app start).0, some (judge app start).1)
    pub stands : StandsOn app.libraries app.services start ready

-- `Process` returns without an error only if the row of the session and the client's policy were
-- read, and the run of the ten checks ended verified from the context that holds this session, row,
-- body and policy, the application's trust map and validity model, the origin for the flow "dcapi"
-- and none for another, and no presentation, credential, response code or row of a report yet. The
-- run stands on a context whose credentials passed every check and from which the result was
-- delivered without an error, and the answer is what follows this run.
pub process-Answered :
    {W : Type 0} (app : App W) (sess : Session) (body : Bytes) (origin : String) (w : W)
    (uri : String)
    → (process app sess body origin w).0 ≡ ok uri
    → Answered app sess body origin w
unfolding process
process-Answered app sess body origin w uri h = elim (Result-cases (app.get_row sess.id w)) [
  | inr (e, g) ↦ absurd (cc (rw (g, process) at h))
  | inl (meta, g) ↦ elim (Result-cases (parse_policy app.unmarshal_policy meta.policy)) [
    | inr (e, p) ↦ absurd (cc (rw (g, p, process) at h))
    | inl (policy, p) ↦
        let start = prepared app sess body origin meta policy w in
        let from = prepared-IsPrepared app sess body origin meta policy w in
        let v = judge-verified app start uri (rw (g, p, process) at h) in
        let (ready, stands) =
          production-verified app.libraries app.services start from.no_credential v in
        record {
          meta = meta;
          policy = policy;
          start = start;
          ready = ready;
          row_read = g;
          policy_read = p;
          from = from;
          answer = rw (g, p, process) refl;
          stands = stands;
        }
  ]
]

module _ {W : Type 0} (app : App W) where
  -- Saving the report of a run does not fail.
  abbrev pub Saves : Report → PipelineContext W → Type 0
  Saves rep pc =
      (raw : Bytes)
      → app.marshal_report rep ≡ ok raw
      → (app.save_report pc.session_id raw pc.world).0 ≡ none

  abbrev Refused : Report → Result String × PipelineContext W → Type 0
  Refused rep answer =
      (answer.0 ≡ err (wallet_fail_problem app.new_problem rep.fail_code)) × IsWiped answer.1

  decide-Refused :
      (rep : Report) (pc : PipelineContext W)
      → rep.outcome ≢ "verified"
      → Refused rep (decide app rep pc)
  unfolding decide refuse
  decide-Refused rep pc ne = elim (Bool-cases (str_eq rep.outcome "verified")) [
    | inl e ↦ absurd (ne ((eq_iff rep.outcome "verified").0 e))
    | inr e ↦ rw (e, decide, refuse) (refl, (finalize-IsWiped app.services _ _).0)
  ]

  reported-Refused :
      (rep : Report) (pc : PipelineContext W) (saved : Option GoError × W)
      → rep.outcome ≢ "verified"
      → saved.0 ≡ none
      → Refused rep (reported app rep pc saved)
  unfolding reported
  reported-Refused rep pc (some e, w) ne h = cc h
  reported-Refused rep pc (none, w) ne h = decide-Refused rep (with_world app pc w) ne

  report-Refused :
      (rep : Report) (pc : PipelineContext W)
      → rep.outcome ≢ "verified"
      → Saves rep pc
      → Refused rep (report app rep pc)
  unfolding report
  report-Refused rep pc ne saves = elim (Result-cases (app.marshal_report rep)) [
    | inl (raw, m) ↦ rw (m, report) (reported-Refused rep pc _ ne (saves raw m))
    | inr (e, m) ↦ rw (m, report) (decide-Refused rep pc ne)
  ]

-- If the run of the ten checks does not report "verified" and its report, where it can be encoded,
-- is saved without an error, `Process` returns the problem of the report's fail code, and the
-- context that it leaves holds no disclosed value.
pub judge-Refused :
    {W : Type 0} (app : App W) (pc : PipelineContext W)
    → let ended = run (production app.libraries app.services) pc in
      ended.0.outcome ≢ "verified"
      → Saves app ended.0 ended.1
      → ((judge app pc).0 ≡ err (wallet_fail_problem app.new_problem ended.0.fail_code))
        × IsWiped (judge app pc).1
unfolding judge
judge-Refused app pc ne saves =
    report-Refused app (run (production app.libraries app.services) pc).0
      (run (production app.libraries app.services) pc).1 ne saves
