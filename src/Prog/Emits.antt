-- ===== src/Prog/Emits.antt =====
-- What a piece of code may call: `Emits Q m` says that every call that `m` makes satisfies `Q`,
-- whatever the answers, with a rule for each way to build a piece of code.
use istio_operator.Prelude.{◌≡◌, refl, Bool, true, false, Option, none, some, List, All}
use istio_operator.Prog.{
  Result, ok, err, Prog, pure, perform, observe, ◌>>=◌, on_result, on_error, when,
}

pub record Emits {ℓ} {C A : Type ℓ} (Q : C → Type ℓ) (m : Prog C A) : Type ℓ where
  pub at : (log : List C) → All Q log → All Q (m log).1

module _ {ℓ} {C A : Type ℓ} {Q : C → Type ℓ} where
  pub Emits-pure : (a : A) → Emits Q (pure a)
  unfolding pure
  Emits-pure a = record { at = λ log h. h }

  pub Emits-perform : (c : C) (f : List C → A) → Q c → Emits Q (perform c f)
  unfolding perform
  Emits-perform c f q = record { at = λ log h. (q, h) }

  pub Emits-observe : (f : List C → A) → Emits Q (observe f)
  unfolding observe
  Emits-observe f = record { at = λ log h. h }

  pub Emits-when :
      (b : Bool) (m n : Prog C A)
      → (b ≡ true → Emits Q m)
      → (b ≡ false → Emits Q n)
      → Emits Q (when b m n)
  unfolding when
  Emits-when true m n hm hn = hm refl
  Emits-when false m n hm hn = hn refl

module _ {ℓ} {C A B : Type ℓ} {Q : C → Type ℓ} where
  pub Emits-bind :
      (m : Prog C A) (f : A → Prog C B) → Emits Q m → ((a : A) → Emits Q (f a)) → Emits Q (m >>= f)
  unfolding ◌>>=◌
  Emits-bind m f hm hf = record {
    at = λ log h. let (a, log') = m log in (hf a).at log' (hm.at log h);
  }

module _ {ℓ} {C E A B : Type ℓ} {Q : C → Type ℓ} where
  pub Emits-on_result :
      (r : Result E A) (f : A → Prog C B) (g : E → Prog C B)
      → ((a : A) → r ≡ ok a → Emits Q (f a))
      → ((e : E) → Emits Q (g e))
      → Emits Q (on_result r f g)
  unfolding on_result
  Emits-on_result (ok a) f g hf hg = hf a refl
  Emits-on_result (err e) f g hf hg = hg e

module _ {ℓ} {C E B : Type ℓ} {Q : C → Type ℓ} where
  pub Emits-on_error :
      (r : Option E) (g : E → Prog C B) (f : Prog C B)
      → ((e : E) → Emits Q (g e))
      → Emits Q f
      → Emits Q (on_error r g f)
  unfolding on_error
  Emits-on_error none g f hg hf = hf
  Emits-on_error (some e) g f hg hf = hg e

pub ruleset emits_rules = (
  Emits-pure, Emits-perform, Emits-observe, Emits-when, Emits-bind, Emits-on_result, Emits-on_error,
)

-- A call that may fail, with what follows its value and what follows its error.
module _ {ℓ} {C E A B : Type ℓ} {Q : C → Type ℓ} where
  pub Emits-result :
      (m : Prog C (Result E A)) (f : A → Prog C B) (g : E → Prog C B)
      → Emits Q m
      → ((a : A) → Emits Q (f a))
      → ((e : E) → Emits Q (g e))
      → Emits Q (m >>= λ r. on_result r f g)
  Emits-result m f g hm hf hg =
      Emits-bind m (λ r. on_result r f g) hm (λ r. Emits-on_result r f g (λ a _. hf a) hg)

module _ {ℓ} {C E B : Type ℓ} {Q : C → Type ℓ} where
  pub Emits-error :
      (m : Prog C (Option E)) (g : E → Prog C B) (f : Prog C B)
      → Emits Q m
      → ((e : E) → Emits Q (g e))
      → Emits Q f
      → Emits Q (m >>= λ r. on_error r g f)
  Emits-error m g f hm hg hf =
      Emits-bind m (λ r. on_error r g f) hm (λ r. Emits-on_error r g f hg hf)
