-- ===== src/SessionDb/Fake/Stored.antt =====
-- What the fake keeps of the calls of its interface.
use eudi_verifier_core.Prelude.{
  assign, assigned, ◌+◌, String, none, some, ◌≡◌, inl, inr, refl, ap, sym, ◌∙◌, Bytes, Option-cases,
}
use eudi_verifier_core.Errors.{ok}
use eudi_verifier_core.Pipeline.Context.{SessionRow}
use eudi_verifier_core.SessionCreator.{RowInput}
use eudi_verifier_core.SessionDb.{MetadataStore}
use eudi_verifier_core.SessionDb.Fake.{
  Fake, Outside, id_of, row_of, create, found, get, set_status, save_report, get_report, fake_store,
}

-- What every store of session metadata promises of the calls that succeed.
pub record IsStore {W : Type 0} (s : MetadataStore W) : Type 0 where
  -- A row that was created is read back under its id, and a status that was set is read back on the
  -- row, whose other members stay.
  pub get-create :
      (input : RowInput) (row : SessionRow) (w : W)
      → (s.create_session input w).0 ≡ ok row
      → (s.get_session row.id (s.create_session input w).1).0 ≡ ok row
  pub get-set_status :
      (id status : String) (row : SessionRow) (w : W)
      → (s.get_session id w).0 ≡ ok row
      → (s.set_session_status id status w).0 ≡ none
      → (s.get_session id (s.set_session_status id status w).1).0
        ≡ ok (record row { status = status })
  -- A report that was saved is read back.
  pub get-save_report :
      (id : String) (report : Bytes) (w : W)
      → (s.save_session_report id report w).0 ≡ none
      → (s.get_session_report id (s.save_session_report id report w).1).0 ≡ ok report

module _ (o : Outside) where
  status_kept :
      (id status : String) (row : SessionRow) (f : Fake)
      → (get o id f).0 ≡ ok row
      → (set_status o id status f).0 ≡ none
      → (get o id (set_status o id status f).1).0 ≡ ok (record row { status = status })
  unfolding get set_status found
  status_kept id status row f r h = elim (Option-cases (f.sessions id)) [
    | inl e ↦ absurd (cc (rw (e, set_status) at h))
    | inr (s, e) ↦
        let same : ok s ≡ ok row = rw (e, get, found) at r in
        let kept : s ≡ row = cc same in
        rw (set_status, e, assigned f.sessions id (record s { status = status }))
          (ap (λ (t : SessionRow). ok (record t { status = status })) kept)
  ]

  report_kept :
      (id : String) (report : Bytes) (f : Fake)
      → (save_report o id report f).0 ≡ none
      → (get_report o id (save_report o id report f).1).0 ≡ ok report
  unfolding get_report save_report found
  report_kept id report f h = elim (Option-cases (f.sessions id)) [
    | inl e ↦ absurd (cc (rw (e, save_report) at h))
    | inr (s, e) ↦ rw (save_report, e, assigned f.reports id report) refl
  ]

-- The fake is such a store.
pub fake_store-IsStore : (o : Outside) → IsStore (fake_store o)
unfolding fake_store create row_of get found
fake_store-IsStore o = record {
  get-create = λ input row w h.
      let same : row_of o input (w.seq + 1) ≡ row = cc h in
      ap (found o) (
        ap
          (λ (t : SessionRow).
            assign w.sessions (id_of o input (w.seq + 1)) (row_of o input (w.seq + 1)) t.id)
          (sym same)
        ∙ assigned w.sessions _ (row_of o input (w.seq + 1))
        ∙ ap some same);
  get-set_status = status_kept o;
  get-save_report = report_kept o;
}
