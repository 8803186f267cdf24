-- ===== src/Pipeline/Checks/AssembleForward/Delivery.antt =====
-- Step 10 does not fail exactly when `Finalize` returns no error.
use eudi_verifier_core.Prelude.{false, Option, none, ◌≡◌, refl, arith}
use eudi_verifier_core.Errors.{GoError}
use eudi_verifier_core.Pipeline.Context.{Services, PipelineContext, RunResult}
use eudi_verifier_core.Pipeline.Engine.{is_fail, round}
use eudi_verifier_core.Pipeline.Finalize.{finalize}
use eudi_verifier_core.Pipeline.Finalize.Disposal.{finalize-delivers}
use eudi_verifier_core.Pipeline.Checks.AssembleForward.{
  assembled, assemble_forward, add_summaries, verdict,
}

module _ {W : Type 0} (sv : Services W) where
  -- What step 10 hands to `Finalize`, and what comes back.
  abbrev pub forwarded : PipelineContext W → Option GoError × PipelineContext W × RunResult
  forwarded pc =
      finalize sv (record pc { report = add_summaries pc.credentials pc.report }) (assembled pc)

  verdict-quiet : (o : Option GoError) → is_fail (verdict o).outcome ≡ false → o ≡ none
  unfolding verdict
  verdict-quiet o e = ground arith

  pub assemble_forward-delivered :
      (pc : PipelineContext W)
      → is_fail (round (assemble_forward sv) pc).0.outcome ≡ false
      → (forwarded pc).0 ≡ none
  unfolding assemble_forward round
  assemble_forward-delivered pc e = verdict-quiet _ e

  pub world-assemble_forward :
      (pc : PipelineContext W) → (round (assemble_forward sv) pc).1.world ≡ (forwarded pc).1.world
  unfolding assemble_forward round
  world-assemble_forward pc = refl

  -- Where step 10 does not fail, the result of its context was delivered without an error.
  pub forwarded-delivers :
      (pc : PipelineContext W)
      → (forwarded pc).0 ≡ none
      → (sv.deliver pc.meta (assembled pc) pc.world).0 ≡ none
  forwarded-delivers pc h = finalize-delivers sv _ (assembled pc) h
