-- ===== src/Common/Finalizers.antt =====
-- What an update by AddFinalizer or RemoveFinalizer (pkg/controller/common/finalizers.go) writes.
use istio_operator.Prelude.{
  true, false, ◌&&◌, ◌||◌, not, ◌≡◌, ◌≢◌, ◌∙◌, ap, String, has, ◌==◌, eq_iff, arith, new_set,
  set_insert, set_delete, has-set_insert, has-set_delete, has-new_set,
}
use istio_operator.Kube.{ObjectMeta, Env, IsSorting}
use istio_operator.Common.{finalizer_name, has_finalizer, with_finalizer, without_finalizer}

module _ {E : Type 0} (env : Env E) where
  -- Where sorting keeps a set's elements, the update of RemoveFinalizer writes an object that has not
  -- the operator's finalizer, and has any other finalizer exactly if it had it.
  pub without_finalizer_lem :
      IsSorting env
      → (o : ObjectMeta)
      → (has_finalizer (without_finalizer env o) ≡ false)
        × ((other : String)
            → other ≢ finalizer_name
            → has other (without_finalizer env o).finalizers ≡ has other o.finalizers)
  unfolding without_finalizer has_finalizer
  without_finalizer_lem sorting o =
      let elements : (x : String)
          → has x (env.sorted (set_delete finalizer_name (new_set o.finalizers)))
            ≡ (not (finalizer_name == x) && has x o.finalizers) =
        λ x.
          sorting.has-sorted x _
          ∙ has-set_delete finalizer_name x (new_set o.finalizers)
          ∙ ap (λ b. not (finalizer_name == x) && b) (has-new_set x o.finalizers) in
      (
        has-new_set finalizer_name _ ∙ elements finalizer_name,
        λ other ne. ground (arith, elements other, eq_iff finalizer_name other),
      )

  -- Where sorting keeps a set's elements, the update of AddFinalizer writes an object that has the
  -- operator's finalizer, and has any other finalizer exactly if it had it.
  pub with_finalizer_lem :
      IsSorting env
      → (o : ObjectMeta)
      → (has_finalizer (with_finalizer env o) ≡ true)
        × ((other : String)
            → other ≢ finalizer_name
            → has other (with_finalizer env o).finalizers ≡ has other o.finalizers)
  unfolding with_finalizer has_finalizer
  with_finalizer_lem sorting o =
      let elements : (x : String)
          → has x (env.sorted (set_insert finalizer_name (new_set o.finalizers)))
            ≡ (finalizer_name == x || has x o.finalizers) =
        λ x.
          sorting.has-sorted x _
          ∙ has-set_insert finalizer_name x (new_set o.finalizers)
          ∙ ap (λ b. finalizer_name == x || b) (has-new_set x o.finalizers) in
      (
        has-new_set finalizer_name _ ∙ elements finalizer_name,
        λ other ne. ground (arith, elements other, eq_iff finalizer_name other),
      )
