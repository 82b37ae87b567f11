-- ===== src/Fix/Samples.antt =====
-- A fix loop that ends in an approval, over collaborators that write what a worker, a verification and a
-- review write.
use imece_ide.Base.{
  ℕ, ◌==◌, if◌then◌else◌, String, false, Option, none, some, [], ◌∷◌, Result, ok, err, ◌≡◌, refl,
  Result-cases, inl, inr,
}
use imece_ide.Json.{Dict, end}
use imece_ide.Run.Events.{RunEventType}
use imece_ide.Run.Store.Consistency.{IsConsistent}
use imece_ide.Run.Runtime.{RunRuntime, texts, record_event}
use imece_ide.Run.Runtime.Recorded.{record_event-Grew}
use imece_ide.Run.Completion.Gate.{complete}
use imece_ide.Run.Samples.{
  sample_floats, sample_environment, opened, reviewed_runtime, sha, from_ok,
}
use imece_ide.Verification.Models.{VerificationStatus, VerificationReport}
use imece_ide.Review.{ReviewVerdict, ReviewReport, ReviewRequest}
use imece_ide.Fix.Models.{FixTriggerKind, FixLoopRequest, FixLoopReport, FixLoopStatus}
use imece_ide.Fix.Recorder.{Recorder}
use imece_ide.Fix.Task.{World}
use imece_ide.Fix.Ports.{FixPorts}
use imece_ide.Fix.Outcome.{KeepStore}
use imece_ide.Fix.Loop.{Exceptions, run}
use imece_ide.Fix.Task.{◌>>=◌, lift, call_port, on_recorder, on_runtime, new_id}
use imece_ide.Fix.Loop.{loop_id, is_current, open_recorder, guarded, handle}
use imece_ide.Base.{is_stable_id, is_bounded_text, is_blank, has_nul, is_space, is_sha256}
use imece_ide.Fix.Calls.{
  capture, raise_if_cancelled, render_worker_input, run_worker, require_execution_completed,
  read_log, whole_log, run_verification, evaluate_decision_gate, build_review_request, run_reviewer,
  validate_review_provenance,
}
use imece_ide.Fix.Recorder.{
  new_recorder, start, reject_reused_loop_id, commit, attempt_started, attempt_completed,
  append_terminal, completed,
}
use imece_ide.Fix.Models.{kind_text, make_worker_request, make_trigger}
use imece_ide.Review.{make_review_request}
use imece_ide.Verification.Models.{report_status}
use imece_ide.Run.Completion.Kinds.{is_fix_loop_started}
use imece_ide.Run.Completion.Checks.{last_where}
use imece_ide.Fix.Branches.{verify, judge, after_pass, after_approval, give_up, break_off}
use imece_ide.Fix.Runner.{run_attempts, attempt}

-- One more event of the run, if the store takes it.
unfoldable pub write : RunEventType → Dict → Option String → RunRuntime → RunRuntime
write type payload x rt = elim (record_event "r" type payload x none "test" none rt) [
  | ok after ↦ after
  | err _ ↦ rt
]

pub write-IsConsistent :
    (type : RunEventType) (payload : Dict) (x : Option String) (rt : RunRuntime)
    → IsConsistent rt.store
    → IsConsistent (write type payload x rt).store
unfolding write
write-IsConsistent type payload x rt w =
    elim (Result-cases (record_event "r" type payload x none "test" none rt)) [
      | inl (after, q) ↦
          rw (q, write)
            ((record_event-Grew "r" type payload x none "test" none rt after q).consistent w)
      | inr (e, q) ↦ rw (q, write) w
    ]

abbrev other_sha : String
other_sha = "ffffffffffffffffffffffffffffffffffffffffffffffffffffffffffffffff"

-- The verification that an id names, with one check of the given status.
abbrev pub report_with : VerificationStatus → String → VerificationReport
report_with status id = record {
  verification_id = id;
  plan_id = "p";
  results =
      record {
        check_id = "c";
        name = "check";
        status = status;
        process_result = none;
        error_type = none;
        error_message = none;
      }
      ∷ [];
  duration_ms = 0;
}

abbrev verified_id : Option VerificationReport → String
verified_id none = ""
verified_id (some r) = r.verification_id

abbrev pub review_of : ReviewRequest → String → ReviewReport
review_of request id = record {
  review_id = id;
  verdict = ReviewVerdict.approved;
  summary = "fine";
  findings = [];
  repository_fingerprint = sha;
  diff_sha256 = sha;
  verification_id = some (verified_id request.verification_report);
  verification_status = some "pass";
}

-- The outside is the number of attempts of the worker.
abbrev pub sample_ports : FixPorts ℕ
sample_ports = record {
  is_cancelled = λ n. false;
  capture = λ rt n. (
    ok (record {
      diff = "d";
      changed_paths = "a.py" ∷ [];
      diff_sha256 = if n == 0 then other_sha else sha;
    }),
    rt,
    n,
  );
  render = λ request trigger n c rt o. (ok "fix it", rt, o);
  worker = λ request x rt n. (
    ok x,
    write RunEventType.execution_completed end (some x)
        (write RunEventType.execution_started end (some x) rt),
    1,
  );
  verification = λ plan id rt n. (
    ok (report_with VerificationStatus.pass id),
    write RunEventType.verification_completed
        (texts (("verification_id", id) ∷ ("status", "pass") ∷ [])) none
        (write RunEventType.verification_started (texts (("verification_id", id) ∷ [])) none rt),
    n,
  );
  reviewer = λ request id rt n. (
    ok (review_of request id),
    write RunEventType.review_completed
        (texts (
          ("review_id", id)
          ∷ ("verdict", "APPROVED")
          ∷ ("verification_id", verified_id request.verification_report)
          ∷ ("verification_status", "pass")
          ∷ ("diff_sha256", sha)
          ∷ []))
        none (write RunEventType.review_started (texts (("review_id", id) ∷ [])) none rt),
    n,
  );
  decision_gate = none;
}

pub sample_ports-KeepStore : KeepStore sample_ports
sample_ports-KeepStore = record {
  capture = λ rt n w. w;
  render = λ request t n c rt o w. w;
  worker = λ request x rt n w. write-IsConsistent _ _ _ _ (write-IsConsistent _ _ _ _ w);
  verification = λ plan id rt n w. write-IsConsistent _ _ _ _ (write-IsConsistent _ _ _ _ w);
  reviewer = λ request id rt n w. write-IsConsistent _ _ _ _ (write-IsConsistent _ _ _ _ w);
  decision_gate = λ g h. cc;
}

abbrev pub sample_request : FixLoopRequest
sample_request = record {
  task = "do it";
  trigger = record {
    kind = FixTriggerKind.verification_fail;
    verification_report = some (report_with VerificationStatus.fail "old");
    review_report = none;
    feedback = none;
    diff_sha256 = none;
  };
  verification_plan = record { plan_id = "p"; checks = [] };
  plan = none;
  max_fix_attempts = 2;
  review_task = none;
  pinned_paths = [];
}

abbrev pub blank_recorder : Recorder
blank_recorder = record {
  run_id = "";
  fix_loop_id = "";
  started_persisted = false;
  terminal_recorded = false;
  active_attempt_index = none;
  active_attempt_id = none;
  active_worker_execution_id = none;
  last_completed_attempt_index = 0;
}

abbrev pub sample_world : World ℕ
sample_world = record {
  runtime = record { store = opened; tick = 0 };
  recorder = blank_recorder;
  outside = 0;
}

abbrev pub sample_names : Exceptions
sample_names = record { class_name = λ e. "Error"; message = λ e. "" }

abbrev pub no_report : FixLoopReport
no_report = record {
  fix_loop_id = "";
  status = FixLoopStatus.failed;
  attempts_used = 0;
  reason = "";
  final_execution_id = none;
  verification_report = none;
  review_report = none;
  diff_sha256 = none;
  needs_user_message = none;
}

unfoldable pub fixed : Result FixLoopReport × World ℕ
unfolding reviewed_runtime run write ◌>>=◌ lift call_port on_recorder on_runtime new_id loop_id
    is_current open_recorder guarded handle is_stable_id is_bounded_text is_blank has_nul is_space
    is_sha256 capture raise_if_cancelled render_worker_input run_worker require_execution_completed
    read_log whole_log run_verification evaluate_decision_gate build_review_request run_reviewer
    validate_review_provenance new_recorder start reject_reused_loop_id commit attempt_started
    attempt_completed append_terminal completed kind_text make_worker_request make_trigger
    make_review_request report_status is_fix_loop_started last_where run_attempts attempt verify
    judge after_pass after_approval give_up break_off
fixed = run sample_ports complete sample_names "r" (some "loop") sample_request sample_world

fixed_status : (from_ok no_report fixed.0).status ≡ FixLoopStatus.completed
unfolding fixed
fixed_status = refl
