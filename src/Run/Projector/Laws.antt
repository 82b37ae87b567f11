-- ===== src/Run/Projector/Laws.antt =====
-- What an event of run_runtime/projector.py keeps, and what it may set.
use imece_ide.Base.{
  ℕ, ◌+◌, ◌⊎◌, inl, inr, sym, ap, ◌∙◌, String, some, Option-cases, bind_inv, ◌≡◌, ◌≢◌, none, ok,
  arith,
}
use imece_ide.Run.Models.{RunStatus, FloatOps, RunRecord}
use imece_ide.Run.Events.{RunEventType, RunEvent}
use imece_ide.Json.{Dict, Value, pos, get}
use imece_ide.Run.Projector.{
  project_run, dispatch, get_or, non_negative_int, non_negative_number, cost_of, on_usage_recorded,
}

abbrev Kept : RunRecord → RunRecord → Type 0
Kept c r =
    (r.run_id ≡ c.run_id)
    × (r.task_id ≡ c.task_id)
    × (r.attempt ≡ c.attempt)
    × (r.retry_of_run_id ≡ c.retry_of_run_id)
    × (r.routing ≡ c.routing)
    × (r.budget ≡ c.budget)
    × (r.workspace_snapshot ≡ c.workspace_snapshot)
    × (r.created_at ≡ c.created_at)
    × (r.last_event_seq ≡ c.last_event_seq)

module _ ⦃fp : FloatOps⦄ where
  dispatch_keeps :
      (t : RunEventType) (c : RunRecord) (e : RunEvent) (r : RunRecord)
      → dispatch t c e ≡ ok r
      → Kept c r
  unfolding dispatch
  dispatch_keeps RunEventType.run_created c e r h = ground arith
  dispatch_keeps _ c e r h = ground arith

  pub project_run_keeps :
      (c : RunRecord) (e : RunEvent) (r : RunRecord) → project_run c e ≡ ok r → Kept c r
  unfolding project_run
  project_run_keeps c e r h = dispatch_keeps e.type c e r h

  dispatch_times :
      (t : RunEventType) (c : RunRecord) (e : RunEvent) (r : RunRecord)
      → dispatch t c e ≡ ok r
      → (c.started_at ≢ none → r.started_at ≡ c.started_at)
        × (c.finished_at ≢ none → r.finished_at ≡ c.finished_at)
  unfolding dispatch
  dispatch_times RunEventType.run_created c e r h = ground arith
  dispatch_times _ c e r h = ground arith

  -- The first start and the first end of a run stay: no later event moves a time that is set.
  pub project_run_times :
      (c : RunRecord) (e : RunEvent) (r : RunRecord)
      → project_run c e ≡ ok r
      → (c.started_at ≢ none → r.started_at ≡ c.started_at)
        × (c.finished_at ≢ none → r.finished_at ≡ c.finished_at)
  unfolding project_run
  project_run_times c e r h = dispatch_times e.type c e r h

  -- The count that a payload gives under a key: a number that is not negative, or a default where the key
  -- is missing.
  abbrev pub Counts : String → ℕ → Dict → ℕ → Type 0
  Counts key default payload n =
      (get key payload ≡ some (Value.int (pos n))) ⊎ ((get key payload ≡ none) × (n ≡ default))

  -- The usage that an event reports is what it adds.
  pub record Used (c : RunRecord) (e : RunEvent) (r : RunRecord) : Type 0 where
    pub prompt : ℕ
    pub completion : ℕ
    pub total : ℕ
    pub of_prompt : Counts "prompt_tokens" 0 e.payload prompt
    pub of_completion : Counts "completion_tokens" 0 e.payload completion
    pub of_total : Counts "total_tokens" (prompt + completion) e.payload total
    pub prompt_sum : r.prompt_tokens ≡ c.prompt_tokens + prompt
    pub completion_sum : r.completion_tokens ≡ c.completion_tokens + completion
    pub total_sum : r.total_tokens ≡ c.total_tokens + total

  abbrev pub SameTokens : RunRecord → RunRecord → Type 0
  SameTokens c r =
      (r.prompt_tokens ≡ c.prompt_tokens)
      × (r.completion_tokens ≡ c.completion_tokens)
      × (r.total_tokens ≡ c.total_tokens)

  -- What an event of a type does to the counters.
  abbrev pub Tokens : RunEventType → RunRecord → RunEvent → RunRecord → Type 0
  Tokens RunEventType.usage_recorded c e r = Used c e r
  Tokens _ c e r = SameTokens c r

  counts_lem :
      (key : String) (default n : ℕ) (payload : Dict)
      → non_negative_int (get_or key payload (Value.int (pos default))) ≡ ok n
      → Counts key default payload n
  unfolding get_or non_negative_int
  counts_lem key default n payload h = elim (Option-cases (get key payload)) [
    | inl e ↦
        let same : ok default ≡ ok n =
          sym
            (ap (λ o. non_negative_int (elim o [ some v ↦ v | none ↦ Value.int (pos default) ])) e)
          ∙ h in
        inr (e, ground arith)
    | inr (v, e) ↦
        let read : non_negative_int v ≡ ok n =
          sym
            (ap (λ o. non_negative_int (elim o [ some v ↦ v | none ↦ Value.int (pos default) ])) e)
          ∙ h in
        inl (e ∙ ap some (count_of v n read))
  ]
    where
      count_of : (v : Value) (n : ℕ) → non_negative_int v ≡ ok n → v ≡ Value.int (pos n)
      count_of v n h = ground arith

  usage_lem :
      (c : RunRecord) (e : RunEvent) (r : RunRecord) → on_usage_recorded c e ≡ ok r → Used c e r
  unfolding on_usage_recorded
  usage_lem c e r h =
      let (prompt, p, h) =
        bind_inv (non_negative_int (get_or "prompt_tokens" e.payload (Value.int (pos 0)))) _ h in
      let (completion, q, h) =
        bind_inv (non_negative_int (get_or "completion_tokens" e.payload (Value.int (pos 0)))) _
          h in
      let (total, t, h) =
        bind_inv
          (non_negative_int
            (get_or "total_tokens" e.payload (Value.int (pos (prompt + completion)))))
          _ h in
      let (cost, _, h) = bind_inv (cost_of (get_or "cost_usd" e.payload (Value.int (pos 0)))) _ h in
      let (latency, _, h) =
        bind_inv (non_negative_number (get_or "latency_s" e.payload (Value.int (pos 0)))) _ h in
      record {
        prompt = prompt;
        completion = completion;
        total = total;
        of_prompt = counts_lem "prompt_tokens" 0 prompt e.payload p;
        of_completion = counts_lem "completion_tokens" 0 completion e.payload q;
        of_total = counts_lem "total_tokens" (prompt + completion) total e.payload t;
        prompt_sum = ground arith;
        completion_sum = ground arith;
        total_sum = ground arith;
      }

  dispatch-Tokens :
      (t : RunEventType) (c : RunRecord) (e : RunEvent) (r : RunRecord)
      → dispatch t c e ≡ ok r
      → Tokens t c e r
  unfolding dispatch
  dispatch-Tokens RunEventType.run_created c e r h = ground arith
  dispatch-Tokens RunEventType.usage_recorded c e r h = usage_lem c e r h
  dispatch-Tokens _ c e r h = ground arith

  -- An accepted `usage.recorded` adds to the token counters of a run exactly the counts of its payload,
  -- each an integer that is not negative; a missing count is 0, and a missing total the sum of the other
  -- two. No other accepted event changes the counters.
  pub project_run-Tokens :
      (c : RunRecord) (e : RunEvent) (r : RunRecord) → project_run c e ≡ ok r → Tokens e.type c e r
  unfolding project_run
  project_run-Tokens c e r h = dispatch-Tokens e.type c e r h

-- The status that an event of each type leads to, from the documentation of the event types.
abbrev pub status_after : RunEventType → RunStatus → RunStatus
status_after RunEventType.run_created s = RunStatus.created
status_after RunEventType.run_started s = RunStatus.running
status_after RunEventType.run_resumed s = RunStatus.running
status_after RunEventType.run_waiting_user s = RunStatus.waiting_user
status_after RunEventType.run_completed s = RunStatus.succeeded
status_after RunEventType.proposal_applied s = RunStatus.succeeded
status_after RunEventType.proposal_rejected s = RunStatus.succeeded
status_after RunEventType.checkpoint_restored s = RunStatus.succeeded
status_after RunEventType.run_failed s = RunStatus.failed
status_after RunEventType.run_cancelled s = RunStatus.cancelled
status_after RunEventType.run_interrupted s = RunStatus.interrupted
status_after _ s = s

module _ ⦃fp : FloatOps⦄ where
  dispatch_status :
      (t : RunEventType) (c : RunRecord) (e : RunEvent) (r : RunRecord)
      → dispatch t c e ≡ ok r
      → r.status ≡ status_after t c.status
  unfolding dispatch
  dispatch_status RunEventType.run_created c e r h = ground arith
  dispatch_status _ c e r h = ground arith

  -- The status after an event is a function of its type and the status before.
  pub project_run_status :
      (c : RunRecord) (e : RunEvent) (r : RunRecord)
      → project_run c e ≡ ok r
      → r.status ≡ status_after e.type c.status
  unfolding project_run
  project_run_status c e r h = dispatch_status e.type c e r h
