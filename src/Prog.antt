-- ===== src/Prog.antt =====
-- Code that calls the Kubernetes API. What the API server answers depends on everything that has
-- happened so far, so an answer is a function of the calls made until then (the last one first), and
-- a piece of code takes that list and returns its result with the longer list. Nothing is assumed of
-- the answers: the server, its caches and the other clients are free.
pub mod Emits
pub mod Returns
pub mod Known
pub mod Answered
pub mod Runs
use istio_operator.Prelude.{Bool, true, false, Option, none, some, List, [], ◌∷◌}

-- The value of a Go function that returns `(T, error)`: the value is read only if the error is nil.
pub data Result {ℓ} (E A : Type ℓ) : Type ℓ where
  ok : A → Result E A
  err : E → Result E A

abbrev pub Prog {ℓ} : Type ℓ → Type ℓ → Type ℓ
Prog C A = List C → A × List C

module _ {ℓ} {C A : Type ℓ} where
  unfoldable pub pure : A → Prog C A
  pure a log = (a, log)

  -- One call, whose answer may depend on the calls before it.
  unfoldable pub perform : C → (List C → A) → Prog C A
  perform c answer log = (answer log, c ∷ log)

  -- A value of the environment that is no call, such as the clock.
  unfoldable pub observe : (List C → A) → Prog C A
  observe f log = (f log, log)

module _ {ℓ} {C A B : Type ℓ} where
  infixl 10 ◌>>=◌ ◌>>◌
  unfoldable pub ◌>>=◌ : Prog C A → (A → Prog C B) → Prog C B
  unfolding pure perform observe
  ◌>>=◌ m f log = let (a, log') = m log in f a log'

  abbrev pub ◌>>◌ : Prog C A → Prog C B → Prog C B
  m >> n = m >>= λ _. n

module _ {ℓ} {C E A B : Type ℓ} where
  -- `if err != nil { … }` after a call that returns a value and an error
  unfoldable pub on_result : Result E A → (A → Prog C B) → (E → Prog C B) → Prog C B
  on_result (ok a) f g = f a
  on_result (err e) f g = g e

module _ {ℓ} {C E B : Type ℓ} where
  -- `if err != nil { … }` after a call that returns an error only
  unfoldable pub on_error : Option E → (E → Prog C B) → Prog C B → Prog C B
  on_error none g f = f
  on_error (some e) g f = g e

module _ {ℓ} {C B : Type ℓ} where
  unfoldable pub when : Bool → Prog C B → Prog C B → Prog C B
  when true m n = m
  when false m n = n
