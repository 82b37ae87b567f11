-- ===== src/Pipeline/Undecided.antt =====
-- The first verification in pipeline_runtime/runner.py, when it neither passes nor fails.
use imece_ide.Base.{
  String, ◌+◌, ◌≡◌, ◌≢◌, false, ok, err, fix_loop_input, arith, none, some, eq_iff, str_eq, true,
}
use imece_ide.Json.{end}
use imece_ide.Run.Models.{FloatOps}
use imece_ide.Run.Runtime.{Environment, RunRuntime}
use imece_ide.Run.Completion.Gate.{Settlement}
use imece_ide.Verification.Models.{
  VerificationStatus, VerificationPlan, VerificationReport, report_status, same_status,
}
use imece_ide.Fix.Models.{FixTriggerKind, make_trigger}
use imece_ide.Fix.Task.{World, lift, ◌>>=◌, call_port, new_id}
use imece_ide.Fix.Calls.{raise_if_cancelled}
use imece_ide.Fix.Loop.{Exceptions}
use imece_ide.Base.{ℕ, List}
use imece_ide.Pipeline.Ports.{PipelinePorts}
use imece_ide.Pipeline.Calls.{tell_stage, run_verification}
use imece_ide.Pipeline.Ends.{Job}
use imece_ide.Pipeline.Runner.{verify_attempt, trigger_of}

undecided_trigger :
    (v : VerificationReport)
    → same_status VerificationStatus.fail (report_status v) ≡ false
    → make_trigger (trigger_of FixTriggerKind.verification_fail (some v) none none none)
      ≡ err fix_loop_input
unfolding make_trigger
undecided_trigger v h = rw h

not_same : (a b : VerificationStatus) → b ≢ a → same_status a b ≡ false
not_same a b h = ground arith

module _ {W : Type 0} ⦃fp : FloatOps⦄ ⦃env : Environment⦄ (ports : PipelinePorts W)
    (mode : Settlement) (names : Exceptions) (n : ℕ) (pins : List String) where
  -- A first verification that is not cancelled, and that ends in TIMEOUT or ERROR, is handed to no fix
  -- loop and has no report: the trigger is refused with FixLoopInputError, and the runtime is as the
  -- verification left it.
  pub verify_attempt-undecided :
      (job : Job) (plan : VerificationPlan) (w : World W) (o o2 : W) (rt : RunRuntime)
      (v : VerificationReport)
      → ports.fix.is_cancelled w.outside ≡ false
      → ports.on_stage "verifying" end w.outside ≡ (ok tt, o)
      → ports.fix.verification plan
          (env.new_id w.runtime.tick)
          (record w.runtime { tick = w.runtime.tick + 1 })
          o
        ≡ (ok v, rt, o2)
      → v.verification_id ≡ env.new_id w.runtime.tick
      → report_status v ≢ VerificationStatus.pass
      → report_status v ≢ VerificationStatus.fail
      → verify_attempt ports mode names n pins job plan w
        ≡ (err fix_loop_input, record w { runtime = rt; outside = o2 })
  unfolding verify_attempt raise_if_cancelled tell_stage run_verification call_port new_id ◌>>=◌
      lift
  verify_attempt-undecided job plan w o o2 rt v live told ran id not_pass not_fail =
      let same : str_eq v.verification_id (env.new_id w.runtime.tick) ≡ true = (eq_iff _ _).1 id in
      rw (live, told, ran, same, not_same VerificationStatus.pass _ not_pass)
        (rw (undecided_trigger v (not_same _ _ not_fail)))
