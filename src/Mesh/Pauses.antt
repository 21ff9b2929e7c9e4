-- ===== src/Mesh/Pauses.antt =====
-- SkipReconciliationUntilCacheSynced (pkg/controller/hacks) and what Reconcile of
-- pkg/controller/servicemesh/controlplane/controller.go makes of it.
use istio_operator.Prelude.{
  ℕ, Bool, if◌then◌else◌, ◌+◌, ◌-◌, ◌≡◌, refl, true, false, List, Option, none, some, ap, eq_refl,
  arith, ltb, ◌∙◌,
}
use istio_operator.Prog.{Prog, pure, observe, ◌>>=◌, when}
use istio_operator.Kube.{NamespacedName}
use istio_operator.Mesh.Calls.{MeshEnv, MeshCall, mesh_now}
use istio_operator.Mesh.Installation.{Instance}
use istio_operator.Mesh.Preparation.{skip_until_synced}
use istio_operator.Mesh.Controller.{
  Reconcilers, same_key, lookup_key, delete_key, put_key, put_earliest, keep, reconcile_now,
  reconcile_request, reconcile,
}

same_key_refl : (k : NamespacedName) → same_key k k ≡ true
unfolding same_key
same_key_refl k = ground (arith, eq_refl k.namespace, eq_refl k.name)

lookup_key-put_key :
    {V : Type 0} (k : NamespacedName) (v : V) (entries : List (NamespacedName × V))
    → lookup_key k (put_key k v entries) ≡ some v
unfolding lookup_key put_key
lookup_key-put_key k v entries = rw (same_key_refl k) refl

module _ {E : Type 0} (env : MeshEnv E) where
  lookup-put_earliest :
      (key : NamespacedName) (o : Option ℕ) (t : ℕ) (times : List (NamespacedName × ℕ))
      → o ≡ some t
      → lookup_key key (put_earliest env key o times) ≡ some t
  unfolding put_earliest
  lookup-put_earliest key o t times e = rw e (lookup_key-put_key key t times)

  skipped :
      (r : Instance) (log : List MeshCall)
      → (skip_until_synced env r log).0.earliest ≡ some (env.clock log + 2)
  unfolding skip_until_synced ◌>>=◌ pure mesh_now observe
  skipped r log = refl

  when_at :
      {A : Type 0} (b : Bool) (m n : Prog MeshCall A) (log : List MeshCall)
      → when b m n log ≡ (if b then m log else n log)
  unfolding when
  when_at true m n log = refl
  when_at false m n log = refl

  paused_until :
      (key : NamespacedName) (state : Reconcilers) (r : Instance) (log : List MeshCall)
      → lookup_key key (keep env key state (skip_until_synced env r log).0).earliest
        ≡ some (env.clock log + 2)
  unfolding keep
  paused_until key state r log = lookup-put_earliest key _ _ state.earliest (skipped r log)

  -- A reconciliation that ends by waiting for the caches is followed by two seconds in which
  -- Reconcile of the same mesh makes no call, leaves the state as it is and asks to be called again
  -- at their end; from then on Reconcile goes on, without the pause.
  pub pause_lem :
      (key : NamespacedName) (state : Reconcilers) (r : Instance) (log later : List MeshCall)
      → let paused = keep env key state (skip_until_synced env r log).0 in
        let until = env.clock log + 2 in
        reconcile env key paused later ≡ (
          if ltb (env.clock later) until
          then ((paused, record { requeue = true; after = until - env.clock later }, none), later)
          else reconcile_now env key
              (record paused { earliest = delete_key key paused.earliest })
              later)
  unfolding reconcile reconcile_request ◌>>=◌ pure mesh_now observe
  pause_lem key state r log later =
      let paused : Reconcilers = keep env key state (skip_until_synced env r log).0 in
      ap (λ (o : Option ℕ). reconcile_request env o key paused later) (paused_until key state r log)
      ∙ when_at _ _ _ later
