-- ===== src/Base/Results.antt =====
-- Values or exceptions, and stateful code that may raise. An exception is its class: the texts of
-- messages are not modelled, apart from those that the program stores in events.
use mathlib.Core.Path.{◌≡◌, refl}
use mathlib.Core.Logic.{◌⊎◌, inl, inr}
use mathlib.Core.Bool.{Bool, true, false}
use mathlib.Core.Option.{Option, none, some}
use native.Mathlib.Omega.{arith}

pub data Error : Type 0 where
  run_not_found event_validation event_sequence event_conflict run_store run_projection
        task_not_found :
      Error
  invalid_run_state run_completion fix_loop_recording : Error
  fix_loop_input fix_loop_execution fix_loop_cancelled operation_cancelled : Error
  planner_input planner_protocol verification_input decision_input review_input : Error
  pipeline_input pipeline_execution review_protocol event_stream_closed : Error
  context_validation workspace_boundary workspace_error : Error
  collab_validation access_denied stale_revision task_exists task_capacity : Error
  git_operation replay_unavailable : Error
  value_error overflow_error key_error other_error : Error

-- What a call returns, or the class of what it raises.
pub data Result {ℓ} (Value : Type ℓ) : Type ℓ where
  err : Error → Result Value
  ok : Value → Result Value

pub Result-cases {ℓ} :
    {Value : Type ℓ} (call : Result Value)
    → ((v : Value) × (call ≡ ok v)) ⊎ ((raised : Error) × (call ≡ err raised))
Result-cases (err raised) = inr (raised, refl)
Result-cases (ok v) = inl (v, refl)

-- `except error: raise other`
abbrev pub reraise {ℓ} : {Value : Type ℓ} → Error → Result Value → Result Value
reraise other (err _) = err other
reraise other (ok v) = ok v

-- `if test: raise e`
abbrev pub refuse : Bool → Error → Result (Unit {0})
refuse false raised = ok tt
refuse true raised = err raised

-- `if not test: raise e`
abbrev pub guard : Bool → Error → Result (Unit {0})
guard false raised = err raised
guard true raised = ok tt

-- `if value is None: raise e`
abbrev pub require {ℓ} : {Value : Type ℓ} → Option Value → Error → Result Value
require none raised = err raised
require (some v) raised = ok v

infixl 5 ◌>>◌ ◌>>=◌
abbrev pub ◌>>=◌ {ℓ κ} :
    {Value : Type ℓ} {Next : Type κ} → Result Value → (Value → Result Next) → Result Next
err raised >>= next = err raised
ok v >>= next = next v

-- A call whose value is not used.
abbrev pub ◌>>◌ {ℓ} : {Next : Type ℓ} → Result (Unit {0}) → Result Next → Result Next
call >> next = call >>= λ ignored. next

-- What a call whose result is bound, or a check, did before a value was returned.
pub bind_inv {ℓ κ} :
    {A : Type ℓ} {B : Type κ} (r : Result A) (next : A → Result B) {v : B}
    → (r >>= next) ≡ ok v
    → (a : A) × (r ≡ ok a) × (next a ≡ ok v)
bind_inv (err e) next h = absurd (ground arith)
bind_inv (ok a) next h = (a, refl, h)

pub guard_inv {ℓ} :
    {A : Type ℓ} (b : Bool) (e : Error) {r : Result A} {v : A}
    → (guard b e >> r) ≡ ok v
    → (b ≡ true) × (r ≡ ok v)
guard_inv false e h = absurd (ground arith)
guard_inv true e h = (refl, h)

pub refuse_inv {ℓ} :
    {A : Type ℓ} (b : Bool) (e : Error) {r : Result A} {v : A}
    → (refuse b e >> r) ≡ ok v
    → (b ≡ false) × (r ≡ ok v)
refuse_inv true e h = absurd (ground arith)
refuse_inv false e h = (refl, h)

pub require_inv {ℓ} :
    {A : Type ℓ} (o : Option A) (e : Error) {v : A} → require o e ≡ ok v → o ≡ some v
require_inv none e h = absurd (ground arith)
require_inv (some a) e h = ground arith
