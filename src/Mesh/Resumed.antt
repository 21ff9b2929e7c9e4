-- ===== src/Mesh/Resumed.antt =====
-- Reconcile of one control plane, whole: what it calls, and the state that it keeps.
use istio_operator.Prelude.{
  ◌≡◌, refl, Bool, true, false, String, List, [], ◌∷◌, none, some, ap, sym, ◌∙◌, is_some,
}
use istio_operator.Prog.Emits.{Emits-pure, Emits-when}
use istio_operator.Prog.Runs.{
  Runs, Runs-pure, Runs-bind, Runs-then, Runs-when, Runs-result, Runs-on_error,
}
use istio_operator.Kube.{ObjectMeta}
use istio_operator.Status.Conditions.{status-set_condition}
use istio_operator.Mesh.Objects.{Mesh, MeshStatus}
use istio_operator.Mesh.Calls.{MeshEnv, MeshCall, Emits-mesh_now}
use istio_operator.Mesh.Conditions.{condition, with_condition}
use istio_operator.Mesh.Posting.{initialize_reconcile_status, current_reconciled_version}
use istio_operator.Mesh.Installation.{Instance}
use istio_operator.Mesh.Reconciler.{
  await_any, resume, await, note_failure, run, post, reconcile_instance,
}
use istio_operator.Mesh.Preparation.{Step, go_on, stop}
use istio_operator.Mesh.Stale.{IsSelecting}
use istio_operator.Mesh.Ready.{IsSound, not_ready-IsSound}
use istio_operator.Mesh.Allowed.{
  Allows, event-Emits, with_condition-Emits, post_status-Emits, calculate_component_readiness-Emits,
  post_reconciliation_status-Emits, update_control_plane_conditions-Emits,
}
use istio_operator.Mesh.Reconciling.{
  IsInstalling, IsKept, Ends, kept, and_then-Runs, pause_if-Runs, install-Runs,
}

module _ {E : Type 0} (env : MeshEnv E) {ns generation : String} where
  pub same-IsKept :
      (r s : Instance)
      → s.mesh.meta ≡ r.mesh.meta
      → s.mesh_generation ≡ r.mesh_generation
      → s.renderings ≡ r.renderings
      → IsKept env ns generation r
      → IsKept env ns generation s
  same-IsKept r s m g d h = record {
    kept_namespace = ap (λ (x : ObjectMeta). x.namespace) m ∙ h.kept_namespace;
    kept_generation =
        ap (λ (x : ObjectMeta). current_reconciled_version env x.generation) m ∙ h.kept_generation;
    kept_labelling = λ e. g ∙ h.kept_labelling (ap is_some (sym d) ∙ e);
  }

module _ {E : Type 0} (env : MeshEnv E) (selecting : IsSelecting env) {ns generation : String}
    {Q : MeshCall → Type 0} (allows : Allows env ns generation Q) where
  -- What is posted and kept at the end of Reconcile.
  pub note_failure-Runs :
      (ended : Instance × Step E)
      → Ends env ns generation ended
      → Runs Q (Ends env ns generation) (note_failure env ended)
  unfolding note_failure
  note_failure-Runs (r, go_on) h = Runs-pure _ h
  note_failure-Runs (r, stop reason message none) h = Runs-pure _ h
  note_failure-Runs (r, stop reason message (some e)) h =
      Runs-then _ _ (update_control_plane_conditions-Emits env allows r.status (some e))
        (λ s. Runs-pure _ (same-IsKept env r _ refl refl refl h))

  pub post-Runs :
      (ended : Instance × Step E)
      → Ends env ns generation ended
      → Runs Q (λ result. IsKept env ns generation result.0) (post env ended)
  unfolding post
  post-Runs (r, go_on) h = Runs-pure _ (kept env ns generation r h)
  post-Runs (r, stop reason message e) h =
      Runs-then _ _ (post_reconciliation_status-Emits env allows r.mesh r.status reason message e)
        (λ (s, status_error). Runs-pure _ (same-IsKept env r _ refl refl refl h))

  await-Runs :
      (r : Instance)
      → IsInstalling env ns generation r
      → Runs Q (Ends env ns generation) (await env r)
  unfolding await
  await-Runs r h =
      Runs-result _ _ _ (calculate_component_readiness-Emits env allows r.mesh r.status.annotations)
        (λ (ready, _). pause_if-Runs env selecting allows _ r h)
        (λ e. Runs-pure _ (kept env ns generation r h))

  pub installing :
      (r : Instance)
      → is_some r.renderings ≡ true
      → IsKept env ns generation r
      → IsInstalling env ns generation r
  installing r e h = record {
    in_namespace = h.kept_namespace;
    at_generation = h.kept_generation;
    labelling = h.kept_labelling e;
  }

  await_any-Runs :
      (waiting : List String) (r : Instance)
      → IsInstalling env ns generation r
      → Runs Q (Ends env ns generation) (await_any env waiting r)
  unfolding await_any
  await_any-Runs [] r h = Runs-pure _ h
  await_any-Runs (c ∷ cs) r h = await-Runs r h

  pub resume-Runs :
      (r : Instance) (reason message : String)
      → IsInstalling env ns generation r
      → Runs Q (Ends env ns generation) (resume env r reason message)
  unfolding resume
  resume-Runs r reason message h =
      Runs-bind _ _ (await_any-Runs r.wait_for_components r h) (λ waited k.
        and_then-Runs env selecting allows waited _ k
          (λ next n. install-Runs env selecting allows next reason message n))

  -- Where something is rendered, Reconcile prepares nothing.
  pub run_resumed :
      (r : Instance) (reason message : String)
      → is_some r.renderings ≡ true
      → IsKept env ns generation r
      → Runs Q (Ends env ns generation) (run env r reason message)
  unfolding run
  run_resumed r reason message e h =
      Runs-on_error (env.version_error r.mesh.version) _ _ (λ x _. Runs-pure _ h)
        (λ _.
          Runs-when (is_some r.renderings) _ _
            (λ _. resume-Runs r reason message (installing r e h)) (λ f. not_both e f))
    where
      not_both : {A : Type 0} {b : Bool} → b ≡ true → b ≡ false → A
      not_both e f = cc

  not_ready-Runs :
      (reason message : String) (s : MeshStatus)
      → Runs Q (IsSound env) (with_condition env (condition "Ready" "False" reason message) s)
  unfolding with_condition condition
  not_ready-Runs reason message s = Runs-then _ _ (Emits-mesh_now env) (λ t. Runs-pure _ (
      not_ready-IsSound env _
        (status-set_condition t (condition "Ready" "False" reason message) s.conditions)))

  initialize_reconcile_status-Runs :
      (mesh : Mesh) (s : MeshStatus) → Runs Q (IsSound env) (initialize_reconcile_status env mesh s)
  unfolding initialize_reconcile_status
  initialize_reconcile_status-Runs mesh s =
      Runs-then _ _
        (Emits-when _ _ _ (λ _. Emits-pure _) (λ _. with_condition-Emits env allows _ s))
        (λ installing. Runs-then _ _ (event-Emits env allows _ _ _) (λ _.
          Runs-then _ _ (with_condition-Emits env allows _ installing)
            (λ reconciling. not_ready-Runs _ _ reconciling)))

  -- Reconcile, where its body runs as it should.
  pub whole-Runs :
      (r : Instance)
      → IsKept env ns generation r
      → ((reason message : String) → Runs Q (Ends env ns generation) (run env r reason message))
      → Runs Q (λ result. IsKept env ns generation result.0) (reconcile_instance env r)
  unfolding reconcile_instance
  whole-Runs r h body =
      Runs-when _ _ _
        (λ _. Runs-bind _ _ (initialize_reconcile_status-Runs r.mesh r.status) (λ initial sound.
          Runs-then _ _ (post_status-Emits env allows r.mesh initial sound)
            (λ (s, e). Runs-pure _ (same-IsKept env r _ refl refl refl h))))
        (λ _. Runs-bind _ _ (body _ _) (λ ended k. post-Runs ended k))
