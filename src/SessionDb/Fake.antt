-- ===== src/SessionDb/Fake.antt =====
-- The session metadata of tests, in memory: internal/sessiondb/fake.go.
pub mod Stored
use eudi_verifier_core.Prelude.{
  ℕ, zero, suc, ◌+◌, ◌-◌, String, Bool, Option, GoMap, assign, none, some, List, [], ◌∷◌, Bytes,
  Time, add_time, pos, is_zero, str_eq, text_append, if◌then◌else◌,
}
use eudi_verifier_core.Errors.{GoError, Result, ok, err}
use eudi_verifier_core.Pipeline.Context.{SessionRow}
use eudi_verifier_core.SessionCreator.{RowInput}
use eudi_verifier_core.SessionDb.{MetadataStore}

-- `Fake`
pub record Fake : Type 0 where
  pub sessions : GoMap SessionRow
  pub reports : GoMap Bytes
  pub seq : ℕ

-- `NewFake`
unfoldable pub new_fake : Fake
new_fake = record { sessions = λ key. none; reports = λ key. none; seq = 0 }

-- What the fake calls: the taxonomy's error of a code, the id that it formats of a number, and the
-- clock.
pub record Outside : Type 0 where
  pub not_found : GoError
  pub fake_id : ℕ → String
  pub now : Time

-- Five minutes.
abbrev default_lifetime : Time → Time
default_lifetime now = add_time now (pos 300_000_000_000)

module _ (o : Outside) where
  unfoldable pub id_of : RowInput → (seq : ℕ) → String
  id_of input seq = if str_eq input.id "" then o.fake_id seq else input.id

  unfoldable pub row_of : RowInput → (seq : ℕ) → SessionRow
  unfolding id_of
  row_of input seq = record {
    id = id_of input seq;
    client_id = input.client_id;
    correlation_id = input.correlation_id;
    flow = input.flow;
    status = "pending";
    policy = input.policy;
    webhook_url = input.webhook_url;
    redirect_uri = input.redirect_uri;
    expires_at = if is_zero input.expires_at then default_lifetime o.now else input.expires_at;
  }

  -- `Create`
  unfoldable pub create : RowInput → Fake → Result SessionRow × Fake
  unfolding row_of
  create input f =
      let s = row_of input (f.seq + 1) in
      (ok s, record f { seq = f.seq + 1; sessions = assign f.sessions s.id s })

  found : {A : Type 0} → Option A → Result A
  found none = err o.not_found
  found (some a) = ok a

  -- `Get`
  unfoldable pub get : String → Fake → Result SessionRow × Fake
  unfolding found
  get id f = (found (f.sessions id), f)

  -- `SetStatus`
  unfoldable pub set_status : (id status : String) → Fake → Option GoError × Fake
  set_status id status f = elim (f.sessions id) [
    | none ↦ (some o.not_found, f)
    | some s ↦ (none, record f { sessions = assign f.sessions id (record s { status = status }) })
  ]

  -- `SaveReport`
  unfoldable pub save_report : (id : String) (report : Bytes) → Fake → Option GoError × Fake
  save_report id report f = elim (f.sessions id) [
    | none ↦ (some o.not_found, f)
    | some s ↦ (none, record f { reports = assign f.reports id report })
  ]

  -- `GetReport`
  unfoldable pub get_report : String → Fake → Result Bytes × Fake
  unfolding found
  get_report id f = (found (f.reports id), f)

  -- The fake as a metadata store.
  unfoldable pub fake_store : MetadataStore Fake
  fake_store = record {
    create_session = create;
    get_session = get;
    set_session_status = set_status;
    save_session_report = save_report;
    get_session_report = get_report;
  }
