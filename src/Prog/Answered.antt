-- ===== src/Prog/Answered.antt =====
-- What a piece of code returns where the result of its first part is known.
use istio_operator.Prelude.{◌≡◌, sym, subst}
use istio_operator.Prog.{Prog, ◌>>=◌}
use istio_operator.Prog.Returns.{Returns}

module _ {ℓ} {C A B : Type ℓ} {P : B → Type ℓ} where
  pub Returns-answered :
      (m : Prog C A) (f : A → Prog C B) (a : A)
      → Returns (λ x. x ≡ a) m
      → Returns P (f a)
      → Returns P (m >>= f)
  unfolding ◌>>=◌
  Returns-answered m f a known h = record {
    at = λ log. subst (λ x. P (f x (m log).1).0) (sym (known.at log)) (h.at (m log).1);
  }

  -- What follows a result that is known to satisfy a predicate.
  pub Returns-known :
      {R : A → Type ℓ} (m : Prog C A) (f : A → Prog C B)
      → Returns R m
      → ((a : A) → R a → Returns P (f a))
      → Returns P (m >>= f)
  unfolding ◌>>=◌
  Returns-known m f known h = record { at = λ log. (h (m log).0 (known.at log)).at (m log).1 }
