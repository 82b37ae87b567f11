-- ===== src/Pipeline/Feedback.antt =====
-- `_augment_task_with_feedback` of pipeline_runtime/runner.py: the task of a review after a follow-up.
use imece_ide.Base.{
  ℕ, zero, suc, ◌+◌, ◌-◌, ◌≤◌, String, ◌≡◌, refl, ap, ◌∙◌, Bool-cases, inl, inr, leb, text_length,
  take_text, append_text, append_text_assoc, text_length-append_text, if◌then◌else◌, arith, tests,
  leb→gt,
}

abbrev review_task_max_chars : ℕ
review_task_max_chars = 32000

abbrev followup_prefix : String
followup_prefix = "\n\nFollow-up instruction from the user: "

abbrev truncation_marker : String
truncation_marker = "\n[truncated]"

-- The branches over the characters that the task leaves, which are `budget`.
fit : String → String → ℕ → String
fit task suffix budget =
    if leb (text_length suffix) budget
    then append_text task suffix
    else if leb budget (text_length truncation_marker)
    then append_text task (take_text budget suffix)
    else append_text (append_text task (take_text (budget - text_length truncation_marker) suffix))
        truncation_marker

unfoldable pub augment_task_with_feedback : String → String → String
unfolding fit
augment_task_with_feedback task feedback =
    if leb review_task_max_chars (text_length task)
    then take_text review_task_max_chars task
    else fit task (append_text followup_prefix feedback) (review_task_max_chars - text_length task)

text_length-take_text : (n : ℕ) (s : String) → text_length (take_text n s) ≤ n
unfolding take_text
text_length-take_text zero s = omega arith
text_length-take_text (suc n) String.[] = omega arith
text_length-take_text (suc n) (String.◌∷◌ c s) = omega (arith, text_length-take_text n s)

take_text_all : (n : ℕ) (s : String) → text_length s ≤ n → take_text n s ≡ s
unfolding take_text
take_text_all zero String.[] h = refl
take_text_all zero (String.◌∷◌ c s) h = absurd (omega arith)
take_text_all (suc n) String.[] h = refl
take_text_all (suc n) (String.◌∷◌ c s) h = ap (String.◌∷◌ c) (take_text_all n s (omega arith))

take_text-append_text : (s t : String) → take_text (text_length s) (append_text s t) ≡ s
unfolding take_text append_text
take_text-append_text String.[] t = refl
take_text-append_text (String.◌∷◌ c s) t = ap (String.◌∷◌ c) (take_text-append_text s t)

ruleset lengths = (tests, text_length-append_text, text_length-take_text)

fit_bound :
    (task suffix : String) (budget : ℕ)
    → text_length (fit task suffix budget) ≤ text_length task + budget
unfolding fit
fit_bound task suffix budget = elim (Bool-cases (leb (text_length suffix) budget)) [
  | inl a ↦ rw a (omega (lengths, a))
  | inr a ↦ elim (Bool-cases (leb budget (text_length truncation_marker))) [
    | inl b ↦ rw (a, b) (omega lengths)
    | inr b ↦
        let kept = take_text (budget - text_length truncation_marker) suffix in
        rw (a, b)
          (omega (
            lengths,
            leb→gt _ _ b,
            text_length-append_text (append_text task kept) truncation_marker,
          ))
  ]
]

fit_prefix :
    (task suffix : String) (budget : ℕ)
    → take_text (text_length task) (fit task suffix budget) ≡ task
unfolding fit
fit_prefix task suffix budget = elim (Bool-cases (leb (text_length suffix) budget)) [
  | inl a ↦ rw a (take_text-append_text task suffix)
  | inr a ↦ elim (Bool-cases (leb budget (text_length truncation_marker))) [
    | inl b ↦ rw (a, b) (take_text-append_text task (take_text budget suffix))
    | inr b ↦
        let kept = take_text (budget - text_length truncation_marker) suffix in
        rw (a, b)
          (ap (take_text (text_length task)) (append_text_assoc task kept truncation_marker)
            ∙ take_text-append_text task (append_text kept truncation_marker))
  ]
]

-- What a reviewer is given after a follow-up is at most 32,000 characters long, and begins with the
-- whole task where that is at most as long itself.
pub augment_task_bound :
    (task feedback : String)
    → (text_length (augment_task_with_feedback task feedback) ≤ 32000)
      × (text_length task ≤ 32000
          → take_text (text_length task) (augment_task_with_feedback task feedback) ≡ task)
unfolding augment_task_with_feedback
augment_task_bound task feedback = elim (Bool-cases (leb 32000 (text_length task))) [
  | inl a ↦ rw a (
    text_length-take_text 32000 task,
    λ h.
        let whole = take_text_all 32000 task h in
        ap (take_text (text_length task)) whole
        ∙ take_text_all (text_length task) task (omega arith),
  )
  | inr a ↦
      let suffix = append_text followup_prefix feedback in
      let bound = fit_bound task suffix (32000 - text_length task) in
      let short = leb→gt 32000 (text_length task) a in
      rw a (omega arith, λ h. fit_prefix task suffix (32000 - text_length task))
]
