-- ===== src/Prog/Known.antt =====
-- What a piece of code may call after one whose results are known to satisfy a predicate.
use istio_operator.Prog.{Prog, ◌>>=◌}
use istio_operator.Prog.Emits.{Emits}
use istio_operator.Prog.Returns.{Returns}

module _ {ℓ} {C A B : Type ℓ} {Q : C → Type ℓ} {P : A → Type ℓ} where
  pub Emits-known :
      (m : Prog C A) (f : A → Prog C B)
      → Emits Q m
      → Returns P m
      → ((a : A) → P a → Emits Q (f a))
      → Emits Q (m >>= f)
  unfolding ◌>>=◌
  Emits-known m f hm known hf = record {
    at = λ log h. (hf (m log).0 (known.at log)).at (m log).1 (hm.at log h);
  }
