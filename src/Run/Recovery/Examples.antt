-- ===== src/Run/Recovery/Examples.antt =====
-- The recovery of a run that was cut off in a verification.
use imece_ide.Base.{true, false, ◌≡◌, ◌⊎◌, refl, none, some, List, [], ◌∷◌, ◌++◌, ok}
use imece_ide.Json.{end, get}
use imece_ide.Run.Models.{RunRecord, new_run}
use imece_ide.Run.Events.{RunEventType, RunEvent, RunEventSpec, make_event}
use imece_ide.Run.Store.{get_run}
use imece_ide.Run.Store.Reachability.{batch, steps, empty_store}
use imece_ide.Run.Runtime.{RunRuntime}
use imece_ide.Run.Samples.{
  sample_floats, sample_environment, sample_spec, opening, reviewed_runtime, from_ok,
}
use imece_ide.Run.Recovery.Drafts.{
  text_at, family_drafts, tool_drafts, started_items, is_closed, is_tool_started,
}
use imece_ide.Run.Recovery.Scan.{
  recover_run, whole_history, unfinished, record_drafts, stamped, plans, verifications, reviews,
  fix_loops, check_drafts, is_check_started,
}
use imece_ide.Run.Recovery.Interrupted.{IsInterrupted, recover_run-IsInterrupted}
use imece_ide.Run.Recovery.Ended.{verification, IsEnded, IsDrafted}
use imece_ide.Run.Recovery.Complete.{unfinished-IsSettledStart}

abbrev cut_off_specs : List RunEventSpec
cut_off_specs =
    sample_spec "b" RunEventType.execution_started (some "x") []
    ∷ sample_spec "d" RunEventType.verification_started none (("verification_id", "v") ∷ [])
    ∷ []

abbrev cut_off : RunRuntime
cut_off = record {
  store = steps (opening ++ batch "r" cut_off_specs (some 1) ∷ []) empty_store;
  tick = 0;
}

abbrev candidate : RunRecord
candidate = from_ok (new_run "" "" 0 none end none none 0) (get_run "r" cut_off.store)

abbrev recovered : RunRuntime
recovered = (from_ok (false, cut_off) (recover_run candidate cut_off)).1

recovers : recover_run candidate cut_off ≡ ok (true, recovered)
unfolding reviewed_runtime recover_run whole_history record_drafts unfinished tool_drafts
    started_items is_tool_started family_drafts plans verifications text_at check_drafts
    is_check_started is_closed stamped reviews fix_loops
recovers = refl

recover_run-IsInterrupted_example :
    ((true ≡ true) × IsInterrupted candidate.run_id cut_off.store recovered.store)
    ⊎ ((true ≡ false) × (recovered ≡ cut_off))
recover_run-IsInterrupted_example =
    recover_run-IsInterrupted candidate cut_off recovered true recovers

abbrev started_event : RunEvent
started_event =
    make_event "r" 3
      (sample_spec "d" RunEventType.verification_started none (("verification_id", "v") ∷ []))

abbrev earlier_events : List RunEvent
earlier_events = make_event "r" 1 (sample_spec "a" RunEventType.run_started none []) ∷ []

unfinished-IsSettledStart_example :
    IsEnded verification "v" (earlier_events ++ started_event ∷ []) started_event []
    ⊎ IsDrafted verification "v" (unfinished (earlier_events ++ started_event ∷ []))
unfolding make_event get
unfinished-IsSettledStart_example =
    unfinished-IsSettledStart verification earlier_events [] started_event "v" (refl, refl)
