-- ===== src/Run/Recovery/Ended.antt =====
-- The work of a run that has a start and an end, as the scan of run_runtime/recovery.py sees it.
use imece_ide.Base.{
  ◌<◌, ◌&&◌, String, Bool, true, ◌≡◌, ◌⊎◌, refl, some, List, [], ◌∷◌, Bool-cases, Option-cases, inl,
  inr, any, eq_iff, arith,
}
use mathlib.Core.List.{Memᴰ}
use imece_ide.Json.{Dict, Value, get, holds_text}
use imece_ide.Run.Events.{RunEventType, RunEvent}
use imece_ide.Run.Recovery.Drafts.{Draft, Family, text_at, next_start_seq, is_closed}
use imece_ide.Run.Recovery.Scan.{plans, verifications, reviews, fix_loops}
use imece_ide.Run.Recovery.Among.{IsAmong}

-- The kinds of work that have a start, an identifier and terminals of their own.
pub data Kind : Type 0 where
  plan : Kind
  verification : Kind
  review : Kind
  fix_loop : Kind

abbrev pub key_of : Kind → String
key_of plan = "plan_id"
key_of verification = "verification_id"
key_of review = "review_id"
key_of fix_loop = "fix_loop_id"

abbrev pub started_type : Kind → RunEventType
started_type plan = RunEventType.plan_started
started_type verification = RunEventType.verification_started
started_type review = RunEventType.review_started
started_type fix_loop = RunEventType.fix_loop_started

abbrev pub interrupted_type : Kind → RunEventType
interrupted_type plan = RunEventType.plan_interrupted
interrupted_type verification = RunEventType.verification_interrupted
interrupted_type review = RunEventType.review_interrupted
interrupted_type fix_loop = RunEventType.fix_loop_interrupted

-- The types that end work of a kind.
abbrev pub Ends : Kind → RunEventType → Type 0
Ends plan t =
    (t ≡ RunEventType.plan_completed)
    ⊎ (t ≡ RunEventType.plan_failed)
    ⊎ (t ≡ RunEventType.plan_interrupted)
Ends verification t =
    (t ≡ RunEventType.verification_completed) ⊎ (t ≡ RunEventType.verification_interrupted)
Ends review t =
    (t ≡ RunEventType.review_completed)
    ⊎ (t ≡ RunEventType.review_failed)
    ⊎ (t ≡ RunEventType.review_interrupted)
Ends fix_loop t =
    (t ≡ RunEventType.fix_loop_completed)
    ⊎ (t ≡ RunEventType.fix_loop_exhausted)
    ⊎ (t ≡ RunEventType.fix_loop_failed)
    ⊎ (t ≡ RunEventType.fix_loop_interrupted)

-- The payload names the work `id` of its kind.
abbrev pub Names : Kind → String → Dict → Type 0
Names kind id payload = get (key_of kind) payload ≡ some (Value.str id)

abbrev pub IsStart : Kind → String → RunEvent → Type 0
IsStart kind id e = (e.type ≡ started_type kind) × Names kind id e.payload

-- `y` is the first start of the work `id` among the events.
pub data FirstStart (kind : Kind) (id : String) (y : RunEvent) : List RunEvent → Type 0 where
  here : {es : List RunEvent} → IsStart kind id y → FirstStart kind id y (y ∷ es)
  there :
      {x : RunEvent} {es : List RunEvent}
      → ¬ IsStart kind id x
      → FirstStart kind id y es
      → FirstStart kind id y (x ∷ es)

-- The work that `e` starts has ended: after `e`, and before the next start of the same identifier
-- where there is one.
pub record IsEnded (kind : Kind) (id : String) (history : List RunEvent) (e : RunEvent)
    (later : List RunEvent) : Type 0 where
  pub terminal : RunEvent
  pub among : Memᴰ terminal history
  pub ended : Ends kind terminal.type
  pub named : Names kind id terminal.payload
  pub after : e.seq < terminal.seq
  pub before : (y : RunEvent) → FirstStart kind id y later → terminal.seq < y.seq

-- An event of the interruption of the work `id`, because the process was restarted, is among the drafts.
pub record IsDrafted (kind : Kind) (id : String) (ds : List Draft) : Type 0 where
  pub draft : Draft
  pub among : IsAmong draft ds
  pub typed : draft.type ≡ interrupted_type kind
  pub named : Names kind id draft.payload
  pub restart : get "reason" draft.payload ≡ some (Value.str "process_restart")

abbrev pub family_of : Kind → Family
family_of plan = plans
family_of verification = verifications
family_of review = reviews
family_of fix_loop = fix_loops

pub starts_lem :
    (kind : Kind) (t : RunEventType) → t ≡ started_type kind → (family_of kind).starts t ≡ true
unfolding plans verifications reviews fix_loops
starts_lem plan t h = rw h refl
starts_lem verification t h = rw h refl
starts_lem review t h = rw h refl
starts_lem fix_loop t h = rw h refl

starts_inv :
    (kind : Kind) (t : RunEventType) → (family_of kind).starts t ≡ true → t ≡ started_type kind
unfolding plans verifications reviews fix_loops
starts_inv plan t h = ground arith
starts_inv verification t h = ground arith
starts_inv review t h = ground arith
starts_inv fix_loop t h = ground arith

ends_inv : (kind : Kind) (t : RunEventType) → (family_of kind).ends t ≡ true → Ends kind t
unfolding plans verifications reviews fix_loops
ends_inv plan t h = ground arith
ends_inv verification t h = ground arith
ends_inv review t h = ground arith
ends_inv fix_loop t h = ground arith

pub key_lem : (kind : Kind) → (family_of kind).key ≡ key_of kind
unfolding plans verifications reviews fix_loops
key_lem plan = refl
key_lem verification = refl
key_lem review = refl
key_lem fix_loop = refl

pub interrupted_lem : (kind : Kind) → (family_of kind).interrupted ≡ interrupted_type kind
unfolding plans verifications reviews fix_loops
interrupted_lem plan = refl
interrupted_lem verification = refl
interrupted_lem review = refl
interrupted_lem fix_loop = refl

holds_inv :
    (k : String) (d : Dict) (t : String) → holds_text k d t ≡ true → get k d ≡ some (Value.str t)
unfolding holds_text
holds_inv k d t h = elim (Option-cases (get k d)) [
  | inl q ↦ absurd (ground arith)
  | inr (Value.str s, q) ↦ let same = (eq_iff s t).0 (ground arith) in rw (← same) q
  | inr (_, q) ↦ absurd (ground arith)
]

holds_lem :
    (k : String) (d : Dict) (t : String) → get k d ≡ some (Value.str t) → holds_text k d t ≡ true
unfolding holds_text
holds_lem k d t h = rw (h, holds_text) ((eq_iff t t).1 refl)

pub text_lem :
    (k : String) (d : Dict) (t : String) → get k d ≡ some (Value.str t) → text_at k d ≡ some t
unfolding text_at
text_lem k d t h = rw (h, text_at) refl

any_inv :
    (p : RunEvent → Bool) (es : List RunEvent)
    → any p es ≡ true
    → (x : RunEvent) × Memᴰ x es × (p x ≡ true)
any_inv p [] h = absurd (ground arith)
any_inv p (e ∷ es) h = elim (Bool-cases (p e)) [
  | inl q ↦ (e, Memᴰ.head refl, q)
  | inr q ↦ let (x, m, q) = any_inv p es (ground arith) in (x, Memᴰ.tail m, q)
]

first_seq :
    (kind : Kind) (id : String) (y : RunEvent) (es : List RunEvent)
    → FirstStart kind id y es
    → next_start_seq (λ x. (family_of kind).starts x.type) (key_of kind) id es ≡ some y.seq
unfolding next_start_seq
first_seq kind id y _ (here s) =
    rw (starts_lem kind y.type s.0, holds_lem (key_of kind) y.payload id s.1) refl
first_seq kind id y _ (there {x = x} {es = es} other f) =
    elim (Bool-cases ((family_of kind).starts x.type && holds_text (key_of kind) x.payload id)) [
      | inl q ↦ absurd (
          other (
            starts_inv kind x.type (ground arith),
            holds_inv (key_of kind) x.payload id (ground arith),
          ))
      | inr q ↦ rw q (first_seq kind id y es f)
    ]

pub closed-IsEnded :
    (kind : Kind) (id : String) (history later : List RunEvent) (e : RunEvent)
    → is_closed
        (family_of kind).ends
        (key_of kind)
        id
        (next_start_seq (λ x. (family_of kind).starts x.type) (key_of kind) id later)
        e.seq
        history
      ≡ true
    → IsEnded kind id history e later
unfolding is_closed
closed-IsEnded kind id history later e h =
    let (x, m, q) = any_inv _ history h in
    record {
      terminal = x;
      among = m;
      ended = ends_inv kind x.type (ground arith);
      named = holds_inv (key_of kind) x.payload id (ground arith);
      after = ground arith;
      before = λ y f. let at = first_seq kind id y later f in ground arith;
    }
