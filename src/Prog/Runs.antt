-- ===== src/Prog/Runs.antt =====
-- What a piece of code calls and returns, together: `Runs Q P m` says that every call that `m` makes
-- satisfies `Q` and every result `P`. What follows may use what is known of a result.
use istio_operator.Prelude.{◌≡◌, refl, Bool, true, false, Option, none, some}
use istio_operator.Prog.{Result, ok, err, Prog, pure, ◌>>=◌, on_result, on_error, when}
use istio_operator.Prog.Emits.{Emits, Emits-pure, Emits-bind, Emits-when}
use istio_operator.Prog.Returns.{Returns, Returns-pure, Returns-bind, Returns-when}
use istio_operator.Prog.Known.{Emits-known}
use istio_operator.Prog.Answered.{Returns-known}

pub record Runs {ℓ} {C A : Type ℓ} (Q : C → Type ℓ) (P : A → Type ℓ) (m : Prog C A) : Type ℓ where
  pub emits : Emits Q m
  pub returns : Returns P m

module _ {ℓ} {C A : Type ℓ} {Q : C → Type ℓ} {P : A → Type ℓ} where
  pub Runs-pure : (a : A) → P a → Runs Q P (pure a)
  Runs-pure a p = record { emits = Emits-pure a; returns = Returns-pure a p }

  pub Runs-when :
      (b : Bool) (m n : Prog C A)
      → (b ≡ true → Runs Q P m)
      → (b ≡ false → Runs Q P n)
      → Runs Q P (when b m n)
  Runs-when b m n hm hn = record {
    emits = Emits-when b m n (λ e. (hm e).emits) (λ e. (hn e).emits);
    returns = Returns-when b m n (λ e. (hm e).returns) (λ e. (hn e).returns);
  }

module _ {ℓ} {C A B : Type ℓ} {Q : C → Type ℓ} {P : B → Type ℓ} where
  -- After a part whose results are known to satisfy `R`.
  pub Runs-bind :
      {R : A → Type ℓ} (m : Prog C A) (f : A → Prog C B)
      → Runs Q R m
      → ((a : A) → R a → Runs Q P (f a))
      → Runs Q P (m >>= f)
  Runs-bind m f hm hf = record {
    emits = Emits-known m f hm.emits hm.returns (λ a r. (hf a r).emits);
    returns = Returns-known m f hm.returns (λ a r. (hf a r).returns);
  }

  -- After a part of whose results nothing is known.
  pub Runs-then :
      (m : Prog C A) (f : A → Prog C B)
      → Emits Q m
      → ((a : A) → Runs Q P (f a))
      → Runs Q P (m >>= f)
  Runs-then m f hm hf = record {
    emits = Emits-bind m f hm (λ a. (hf a).emits);
    returns = Returns-bind m f (λ a. (hf a).returns);
  }

module _ {ℓ} {C E A B : Type ℓ} {Q : C → Type ℓ} {P : B → Type ℓ} where
  pub Runs-on_result :
      (r : Result E A) (f : A → Prog C B) (g : E → Prog C B)
      → ((a : A) → r ≡ ok a → Runs Q P (f a))
      → ((e : E) → r ≡ err e → Runs Q P (g e))
      → Runs Q P (on_result r f g)
  unfolding on_result
  Runs-on_result (ok a) f g hf hg = hf a refl
  Runs-on_result (err e) f g hf hg = hg e refl

  -- A call that may fail, with what follows its value and what follows its error.
  pub Runs-result :
      (m : Prog C (Result E A)) (f : A → Prog C B) (g : E → Prog C B)
      → Emits Q m
      → ((a : A) → Runs Q P (f a))
      → ((e : E) → Runs Q P (g e))
      → Runs Q P (m >>= λ r. on_result r f g)
  Runs-result m f g hm hf hg =
      Runs-then m (λ r. on_result r f g) hm (λ r. Runs-on_result r f g (λ a _. hf a) (λ e _. hg e))

module _ {ℓ} {C E B : Type ℓ} {Q : C → Type ℓ} {P : B → Type ℓ} where
  pub Runs-on_error :
      (r : Option E) (g : E → Prog C B) (f : Prog C B)
      → ((e : E) → r ≡ some e → Runs Q P (g e))
      → (r ≡ none → Runs Q P f)
      → Runs Q P (on_error r g f)
  unfolding on_error
  Runs-on_error none g f hg hf = hf refl
  Runs-on_error (some e) g f hg hf = hg e refl

  pub Runs-error :
      (m : Prog C (Option E)) (g : E → Prog C B) (f : Prog C B)
      → Emits Q m
      → ((e : E) → Runs Q P (g e))
      → Runs Q P f
      → Runs Q P (m >>= λ r. on_error r g f)
  Runs-error m g f hm hg hf =
      Runs-then m (λ r. on_error r g f) hm (λ r. Runs-on_error r g f (λ e _. hg e) (λ _. hf))
