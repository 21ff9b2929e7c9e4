-- ===== src/Prog/Returns.antt =====
-- What a piece of code returns: `Returns P m` says that every result of `m` satisfies `P`, whatever
-- the answers, with a rule for each way to build a piece of code.
use istio_operator.Prelude.{◌≡◌, refl, Bool, true, false, Option, none, some, List}
use istio_operator.Prog.{Result, ok, err, Prog, pure, ◌>>=◌, on_result, on_error, when}

pub record Returns {ℓ} {C A : Type ℓ} (P : A → Type ℓ) (m : Prog C A) : Type ℓ where
  pub at : (log : List C) → P (m log).0

module _ {ℓ} {C A : Type ℓ} {P : A → Type ℓ} where
  pub Returns-pure : (a : A) → P a → Returns P (pure {C = C} a)
  unfolding pure
  Returns-pure a p = record { at = λ log. p }

  pub Returns-when :
      (b : Bool) (m n : Prog C A)
      → (b ≡ true → Returns P m)
      → (b ≡ false → Returns P n)
      → Returns P (when b m n)
  unfolding when
  Returns-when true m n hm hn = hm refl
  Returns-when false m n hm hn = hn refl

module _ {ℓ} {C A B : Type ℓ} {P : B → Type ℓ} where
  pub Returns-bind :
      (m : Prog C A) (f : A → Prog C B) → ((a : A) → Returns P (f a)) → Returns P (m >>= f)
  unfolding ◌>>=◌
  Returns-bind m f hf = record { at = λ log. let (a, log') = m log in (hf a).at log' }

module _ {ℓ} {C E A B : Type ℓ} {P : B → Type ℓ} where
  pub Returns-on_result :
      (r : Result E A) (f : A → Prog C B) (g : E → Prog C B)
      → ((a : A) → r ≡ ok a → Returns P (f a))
      → ((e : E) → r ≡ err e → Returns P (g e))
      → Returns P (on_result r f g)
  unfolding on_result
  Returns-on_result (ok a) f g hf hg = hf a refl
  Returns-on_result (err e) f g hf hg = hg e refl

module _ {ℓ} {C E B : Type ℓ} {P : B → Type ℓ} where
  pub Returns-on_error :
      (r : Option E) (g : E → Prog C B) (f : Prog C B)
      → ((e : E) → r ≡ some e → Returns P (g e))
      → (r ≡ none → Returns P f)
      → Returns P (on_error r g f)
  unfolding on_error
  Returns-on_error none g f hg hf = hf refl
  Returns-on_error (some e) g f hg hf = hg e refl

pub ruleset returns_rules =
    (Returns-pure, Returns-when, Returns-bind, Returns-on_result, Returns-on_error)
