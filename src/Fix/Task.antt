-- ===== src/Fix/Task.antt =====
-- The code of a fix loop as a task: it changes the run runtime, its recorder and the outside, and what
-- it changed stays when it raises.
use imece_ide.Base.{String, ◌≡◌, refl, Error, Result, ok, err, ◌+◌, arith}
use imece_ide.Run.Runtime.{Environment, RunRuntime}
use imece_ide.Fix.Recorder.{Recorder}

pub record World (W : Type 0) : Type 0 where
  pub runtime : RunRuntime
  pub recorder : Recorder
  pub outside : W

abbrev pub Task : Type 0 → Type 0 → Type 0
Task W A = World W → Result A × World W

-- What a call of a port does.
abbrev pub Port : Type 0 → Type 0 → Type 0
Port W A = RunRuntime → W → Result A × RunRuntime × W

module _ {W A : Type 0} where
  abbrev pub pure : A → Task W A
  pure a w = (ok a, w)

  -- A value that may raise, and changes nothing.
  unfoldable pub lift : Result A → Task W A
  lift r w = (r, w)

module _ {W A B : Type 0} where
  continue : (A → Task W B) → Result A × World W → Result B × World W
  continue f (ok a, w) = f a w
  continue f (err e, w) = (err e, w)

  infixl 5 ◌>>=◌
  unfoldable pub ◌>>=◌ : Task W A → (A → Task W B) → Task W B
  unfolding continue
  (m >>= f) w = continue f (m w)

  -- Sequencing, read backwards: a task that returned has returned at every step.
  pub >>=-returned :
      (m : Task W A) (f : A → Task W B) (w w' : World W) (b : B)
      → (m >>= f) w ≡ (ok b, w')
      → (a : A) × (w1 : World W) × (m w ≡ (ok a, w1)) × (f a w1 ≡ (ok b, w'))
  unfolding ◌>>=◌
  >>=-returned m f w w' b h = go (m w) refl h
    where
      go :
          (p : Result A × World W)
          → m w ≡ p
          → continue f p ≡ (ok b, w')
          → (a : A) × (w1 : World W) × (m w ≡ (ok a, w1)) × (f a w1 ≡ (ok b, w'))
      go (ok a, w1) e q = (a, w1, e, q)
      go (err x, w1) e q = absurd (ground arith)

  -- Two continuations that agree on what a task returns.
  pub >>=-same :
      (m : Task W A) (f g : A → Task W B) (w : World W)
      → ((a : A) (w1 : World W) → m w ≡ (ok a, w1) → f a w1 ≡ g a w1)
      → (m >>= f) w ≡ (m >>= g) w
  unfolding ◌>>=◌
  >>=-same m f g w agree = go (m w) refl
    where
      go : (p : Result A × World W) → m w ≡ p → continue f p ≡ continue g p
      go (ok a, w1) e = agree a w1 e
      go (err x, w1) e = refl

infixl 5 ◌>>◌
abbrev pub ◌>>◌ : {W B : Type 0} → Task W (Unit {0}) → Task W B → Task W B
m >> k = m >>= λ ignored. k

module _ {W : Type 0} where
  after_recorder : World W → Result (Recorder × RunRuntime) → Result (Unit {0}) × World W
  after_recorder w (ok (r, rt)) = (ok tt, record w { recorder = r; runtime = rt })
  after_recorder w (err e) = (err e, w)

  -- A method of the recorder.
  unfoldable pub on_recorder :
      (Recorder → RunRuntime → Result (Recorder × RunRuntime)) → Task W (Unit {0})
  unfolding after_recorder
  on_recorder op w = after_recorder w (op w.recorder w.runtime)

  after_runtime : World W → Result RunRuntime → Result (Unit {0}) × World W
  after_runtime w (ok rt) = (ok tt, record w { runtime = rt })
  after_runtime w (err e) = (err e, w)

  -- A method of the completion gate.
  unfoldable pub on_runtime : (RunRuntime → Result RunRuntime) → Task W (Unit {0})
  unfolding after_runtime
  on_runtime op w = after_runtime w (op w.runtime)

  -- A fresh identifier.
  unfoldable pub new_id : ⦃env : Environment⦄ → Task W String
  new_id ⦃env = env⦄ w =
      let rt = w.runtime in
      (ok (env.new_id rt.tick), record w { runtime = record rt { tick = rt.tick + 1 } })

module _ {W A : Type 0} where
  after_port : (Error → Error) → World W → Result A × RunRuntime × W → Result A × World W
  after_port f w (ok a, rt, o) = (ok a, record w { runtime = rt; outside = o })
  after_port f w (err e, rt, o) = (err (f e), record w { runtime = rt; outside = o })

  -- A call of a port, with what becomes of its exceptions.
  unfoldable pub call_port : (Error → Error) → Port W A → Task W A
  unfolding after_port
  call_port f port w = after_port f w (port w.runtime w.outside)
