-- ===== src/Verification/Results.antt =====
-- The results of a report of verification_runtime/runner.py, and the processes they tell of.

use imece_ide.Base.{
  refl, ◌-◌, String, ◌≡◌, subst, length, none, some, List, [], ◌∷◌, ok, bind_inv, guard_inv,
  is_stable_id, ap, ◌∙◌, arith,
}
use imece_ide.Verification.Models.{
  VerificationStatus, ProcessResult, VerificationCheck, VerificationPlan, VerificationCheckResult,
  VerificationReport, make_result, check_evidence, make_report,
}
use imece_ide.Verification.Runner.{
  classify, VerificationPorts, ProcessOutcome, finished, process_error, cancelled, crashed,
  run_check, check_outcome, started, run_checks, run_plan, VerificationEvent, check_started,
  check_completed, check_failed, completed, interrupted,
}

-- What the result of a check tells of what its process ended in: the classified result, or an ERROR that
-- carries the failure of the process runner. After a cancellation or a crash there is no result.
pub data Tells (c : VerificationCheck) (r : VerificationCheckResult) : ProcessOutcome → Type 0 where
  of_process :
      (p : ProcessResult)
      → r.process_result ≡ some p
      → r.status ≡ classify c p
      → r.error_type ≡ none
      → Tells c r (finished p)
  of_failure :
      (type message : String)
      → r.process_result ≡ none
      → r.status ≡ VerificationStatus.error
      → r.error_type ≡ some type
      → Tells c r (process_error type message)

abbrev pub IsResultOf : VerificationCheck → ProcessOutcome → VerificationCheckResult → Type 0
IsResultOf c o r = (r.check_id ≡ c.check_id) × (r.name ≡ c.name) × Tells c r o

-- The event that ends a check.
abbrev pub ending :
    String → VerificationCheck → ProcessOutcome → VerificationCheckResult → VerificationEvent
ending id c (finished p) r = check_completed id c r
ending id c _ r = check_failed id c r

evidence_keeps :
    (r r' : VerificationCheckResult)
    → check_evidence r ≡ ok r'
    → (r'.check_id ≡ r.check_id)
      × (r'.name ≡ r.name)
      × (r'.status ≡ r.status)
      × (r'.process_result ≡ r.process_result)
      × (r'.error_type ≡ r.error_type)
unfolding check_evidence
evidence_keeps r r' h = ground arith

make_result_keeps :
    (r r' : VerificationCheckResult)
    → make_result r ≡ ok r'
    → (r'.check_id ≡ r.check_id)
      × (r'.name ≡ r.name)
      × (r'.status ≡ r.status)
      × (r'.process_result ≡ r.process_result)
      × (r'.error_type ≡ r.error_type)
unfolding make_result
make_result_keeps r r' h = evidence_keeps r r' (ground arith)

module _ {W : Type 0} (ports : VerificationPorts W) where
  -- One check in the world `w`: its start is told, its own request is run, and the result of what the
  -- process ended in is told.
  pub record Ran (id : String) (c : VerificationCheck) (r : VerificationCheckResult) (w w' : W)
      : Type 0 where
    pub begun : W
    pub told : ports.emit (check_started id c) w ≡ ok begun
    pub result : IsResultOf c (ports.run_process c.request begun).0 r
    pub ended :
        ports.emit
          (ending id c (ports.run_process c.request begun).0 r)
          (ports.run_process c.request begun).1
        ≡ ok w'

  -- One check after the other, in the order of the plan.
  abbrev pub AreResultsOf :
      String → List VerificationCheck → List VerificationCheckResult → W → W → Type 0
  AreResultsOf id [] [] w w' = w ≡ w'
  AreResultsOf id (c ∷ cs) (r ∷ rs) w w' = (v : W) × Ran id c r w v × AreResultsOf id cs rs v w'
  AreResultsOf id _ _ w w' = ⊥

  outcome_lem :
      (id plan : String) (c : VerificationCheck) (o : ProcessOutcome) (w w' : W)
      (r : VerificationCheckResult)
      → check_outcome ports id plan c o w ≡ ok (r, w')
      → IsResultOf c o r × (ports.emit (ending id c o r) w ≡ ok w')
  unfolding check_outcome
  outcome_lem id plan c cancelled w w' r h =
      let (v, _, h) = bind_inv (ports.emit (interrupted id plan) w) _ h in absurd (ground arith)
  outcome_lem id plan c crashed w w' r h = absurd (ground arith)
  outcome_lem id plan c (process_error type text) w w' r h =
      let draft : VerificationCheckResult = record {
        check_id = c.check_id;
        name = c.name;
        status = VerificationStatus.error;
        process_result = none;
        error_type = some type;
        error_message = some text;
      } in
      let (made, m, h) = bind_inv (make_result draft) _ h in
      let (v, told, h) = bind_inv (ports.emit (check_failed id c made) w) _ h in
      let same : made ≡ r = ground arith in
      let last : v ≡ w' = ground arith in
      let (a, b, d, e, f) = make_result_keeps draft made m in
      subst
        (λ x.
          IsResultOf c (process_error type text) x × (ports.emit (check_failed id c x) w ≡ ok w'))
        same ((a, b, of_failure type text e d f), told ∙ ap ok last)
  outcome_lem id plan c (finished p) w w' r h =
      let draft : VerificationCheckResult = record {
        check_id = c.check_id;
        name = c.name;
        status = classify c p;
        process_result = some p;
        error_type = none;
        error_message = none;
      } in
      let (made, m, h) = bind_inv (make_result draft) _ h in
      let (v, told, h) = bind_inv (ports.emit (check_completed id c made) w) _ h in
      let same : made ≡ r = ground arith in
      let last : v ≡ w' = ground arith in
      let (a, b, d, e, f) = make_result_keeps draft made m in
      subst (λ x. IsResultOf c (finished p) x × (ports.emit (check_completed id c x) w ≡ ok w'))
        same ((a, b, of_process p e d f), told ∙ ap ok last)

  run_check-Ran :
      (id plan : String) (c : VerificationCheck) (w w' : W) (r : VerificationCheckResult)
      → run_check ports id plan c w ≡ ok (r, w')
      → Ran id c r w w'
  unfolding run_check
  run_check-Ran id plan c w w' r h =
      let (begun, told, h) = bind_inv (ports.emit (check_started id c) w) _ h in
      let (result, ended) =
        outcome_lem id plan c (ports.run_process c.request begun).0
          (ports.run_process c.request begun).1 w' r h in
      record { begun = begun; told = told; result = result; ended = ended }

  run_checks-AreResultsOf :
      (id plan : String) (cs : List VerificationCheck) (w w' : W)
      (rs : List VerificationCheckResult)
      → run_checks ports id plan cs w ≡ ok (rs, w')
      → AreResultsOf id cs rs w w'
  unfolding run_checks
  run_checks-AreResultsOf id plan [] w w' rs h =
      let none_left : [] ≡ rs = ground arith in
      let same : w ≡ w' = ground arith in subst (λ l. AreResultsOf id [] l w w') none_left same
  run_checks-AreResultsOf id plan (c ∷ cs) w w' rs h =
      let ((r, w1), a, h) = bind_inv (run_check ports id plan c w) _ h in
      let ((rest, w2), b, h) = bind_inv (run_checks ports id plan cs w1) _ h in
      let all_of : r ∷ rest ≡ rs = ground arith in
      let last : w2 ≡ w' = ground arith in
      subst (λ l. AreResultsOf id (c ∷ cs) l w w') all_of
        (
          w1,
          run_check-Ran id plan c w w1 r a,
          subst (AreResultsOf id cs rest w1) last (run_checks-AreResultsOf id plan cs w1 w2 rest b),
        )

  -- A report that the runner returns has one result for each check, in the order of the plan. Each tells
  -- of the process that was run for the request of that check, after the check was told to have started:
  -- its classified result, or an ERROR with the class of the failure where it could not be run; after a
  -- cancellation or a crash there is no report. Each result is told before the next check starts, and
  -- the report after all.
  pub run_plan-AreResultsOf :
      (id : String) (plan : VerificationPlan) (w w' : W) (r : VerificationReport)
      → run_plan ports id plan w ≡ ok (r, w')
      → (r.verification_id ≡ id)
        × (r.plan_id ≡ plan.plan_id)
        × (first : W) × (last : W) × (ports.emit (started id plan.plan_id (length plan.checks)) w
            ≡ ok first)
        × AreResultsOf id plan.checks r.results first last
        × (ports.emit (completed id r) last ≡ ok w')
  unfolding run_plan make_report
  run_plan-AreResultsOf id plan w w' r h =
      let (_, h) = guard_inv (is_stable_id id) _ h in
      let (first, a, h) =
        bind_inv (ports.emit (started id plan.plan_id (length plan.checks)) w) _ h in
      let ((rs, last), b, h) = bind_inv (run_checks ports id plan.plan_id plan.checks first) _ h in
      let draft : VerificationReport = record {
        verification_id = id;
        plan_id = plan.plan_id;
        results = rs;
        duration_ms = ports.monotonic_ms last - ports.monotonic_ms w;
      } in
      let (made, m, h) = bind_inv (make_report draft) _ h in
      let (v, told, h) = bind_inv (ports.emit (completed id made) last) _ h in
      let is_draft : draft ≡ made = ground arith in
      let same : made ≡ r = ground arith in
      let at_end : v ≡ w' = ground arith in
      subst
        (λ (x : VerificationReport).
          (x.verification_id ≡ id)
          × (x.plan_id ≡ plan.plan_id)
          × (first : W) × (last : W) × (ports.emit (started id plan.plan_id (length plan.checks)) w
              ≡ ok first)
          × AreResultsOf id plan.checks x.results first last
          × (ports.emit (completed id x) last ≡ ok w'))
        (is_draft ∙ same)
        (
          refl,
          refl,
          first,
          last,
          a,
          run_checks-AreResultsOf id plan.plan_id plan.checks first last rs b,
          rw is_draft (told ∙ ap ok at_end),
        )
