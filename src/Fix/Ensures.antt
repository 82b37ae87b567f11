-- ===== src/Fix/Ensures.antt =====
-- Reasoning about the tasks of the fix loop (fix_runtime/runner.py): what holds when they return.
use imece_ide.Base.{
  String, ◌≡◌, sym, subst, Error, Result, ok, Result-cases, inl, inr, arith, ◌∙◌, ap,
}
use imece_ide.Run.Models.{FloatOps}
use imece_ide.Run.Store.Consistency.{IsConsistent}
use imece_ide.Run.Runtime.{Environment, RunRuntime}
use imece_ide.Fix.Recorder.{Recorder}
use imece_ide.Fix.Task.{World, Task, Port, pure, lift, ◌>>=◌, >>=-returned, new_id, call_port}

module _ {W A : Type 0} where
  -- Where `P` held before a task that returned, `Q` holds of its value after it.
  abbrev pub Ensures : (World W → Type 0) → Task W A → (A → World W → Type 0) → Type 0
  Ensures P m Q = (w w' : World W) (a : A) → P w → m w ≡ (ok a, w') → Q a w'

module _ {W A B : Type 0} where
  pub >>=-Ensures :
      {P : World W → Type 0} {Q : A → World W → Type 0} {R : B → World W → Type 0} (m : Task W A)
      (f : A → Task W B)
      → Ensures P m Q
      → ((a : A) → Ensures (Q a) (f a) R)
      → Ensures P (m >>= f) R
  >>=-Ensures m f first rest w w' b p h =
      let (a, w1, ran, then_ran) = >>=-returned m f w w' b h in
      rest a w1 w' b (first w w1 a p ran) then_ran

module _ {W A : Type 0} (P : World W → Type 0) where
  pub pure-Ensures : (a : A) → Ensures P (pure a) (λ b w. (b ≡ a) × P w)
  pure-Ensures a w w' b p h = (ground arith, subst P (ground arith) p)

  pub lift-Ensures : (r : Result A) → Ensures P (lift r) (λ a w. (r ≡ ok a) × P w)
  unfolding lift
  lift-Ensures r w w' b p h = (ground arith, subst P (ground arith) p)

module _ ⦃fp : FloatOps⦄ {W : Type 0} where
  -- The store is consistent, and the recorder writes to run `k`.
  pub record IsReady (k : String) (w : World W) : Type 0 where
    pub consistent : IsConsistent w.runtime.store
    pub of_run : w.recorder.run_id ≡ k

  -- A task that keeps what the tasks of the loop on run `k` stand on.
  abbrev pub Keeps : {A : Type 0} → String → Task W A → Type 0
  Keeps k m = Ensures (IsReady k) m (λ a w. IsReady k w)

  -- A port that leaves a consistent store consistent, whatever it ends in.
  abbrev pub KeepsStore : {A : Type 0} → Port W A → Type 0
  KeepsStore port =
      (rt : RunRuntime) (o : W) → IsConsistent rt.store → IsConsistent (port rt o).1.store

  pub lift-Keeps : {A : Type 0} (k : String) (r : Result A) → Keeps k (lift r)
  lift-Keeps k r w w' a p h = (lift-Ensures (IsReady k) r w w' a p h).1

  pub call_port-Keeps :
      {A : Type 0} (k : String) (f : Error → Error) (port : Port W A)
      → KeepsStore port
      → Keeps k (call_port f port)
  unfolding call_port
  call_port-Keeps k f port keeps w w' a p h = elim (Result-cases (port w.runtime w.outside).0) [
    | inr (e, q) ↦ absurd (ground arith)
    | inl (b, q) ↦
        let stored : (port w.runtime w.outside).1 ≡ w'.runtime = ground arith in
        record {
          consistent =
              subst (λ (rt : RunRuntime). IsConsistent rt.store) stored
                (keeps w.runtime w.outside p.consistent);
          of_run =
              let same : w.recorder ≡ w'.recorder = ground arith in
              ap (λ (r : Recorder). r.run_id) (sym same) ∙ p.of_run;
        }
  ]

  pub new_id-Keeps : ⦃env : Environment⦄ (k : String) → Keeps k new_id
  unfolding new_id
  new_id-Keeps k w w' a p h = record {
    consistent =
        let same : w.runtime.store ≡ w'.runtime.store = ground arith in
        subst IsConsistent same p.consistent;
    of_run =
        let same : w.recorder ≡ w'.recorder = ground arith in
        ap (λ (r : Recorder). r.run_id) (sym same) ∙ p.of_run;
  }
