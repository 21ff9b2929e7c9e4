-- ===== src/Mesh/Prepared.antt =====
-- The part of Reconcile that renders the charts and prepares their installation.
use istio_operator.Prelude.{
  ◌≡◌, refl, Bool, true, false, String, List, [], ◌∷◌, Option, none, some, ap, is_some,
}
use istio_operator.Prog.{perform}
use istio_operator.Prog.Emits.{Emits, Emits-pure, Emits-result, Emits-when, Emits-bind}
use istio_operator.Prog.Runs.{
  Runs, Runs-pure, Runs-bind, Runs-then, Runs-when, Runs-error, Runs-on_error,
}
use istio_operator.Mesh.Objects.{
  Mesh, MeshStatus, ErrorField, no_error, conversion_error, unreadable,
}
use istio_operator.Mesh.Calls.{
  MeshEnv, MeshCall, get_mesh_namespace, update_mesh_namespace, ask, Emits-ask, Emits-mesh_now,
  render, install_crds, install_cni, reconcile_rbac,
}
use istio_operator.Mesh.Namespaces.{add_namespace_labels, set_namespace_labels}
use istio_operator.Mesh.Posting.{current_reconciled_version}
use istio_operator.Mesh.Installation.{Instance, start_component, start_set, start_components}
use istio_operator.Mesh.Reconciler.{start, run, reconcile_instance}
use istio_operator.Mesh.Preparation.{
  with_rendered, render_failure, install_common, initialize, render_charts, check_conversion,
  prepare,
}
use istio_operator.Mesh.Resumed.{note_failure-Runs, resume-Runs, installing, whole-Runs}
use istio_operator.Mesh.Stale.{IsSelecting}
use istio_operator.Mesh.Allowed.{Allows, AllowsPreparing}
use istio_operator.Mesh.Reconciling.{IsInstalling, IsKept, Ends, kept, and_then-Runs, install-Runs}

-- Rendering that fails renders nothing.
pub record RendersAll {E : Type 0} (env : MeshEnv E) : Type 0 where
  pub nothing_rendered :
      (log : List MeshCall) (mesh : Mesh)
      → is_some (env.reply log (render mesh)).1 ≡ true
      → (env.reply log (render mesh)).0.0 ≡ none

module _ {E : Type 0} (env : MeshEnv E) {Q : MeshCall → Type 0} (prepares : AllowsPreparing Q) where
  render-Emits : (mesh : Mesh) → Emits Q (ask env (render mesh))
  render-Emits mesh = Emits-ask env (render mesh) (prepares.of_render mesh)

  rendered-Runs :
      RendersAll env
      → (mesh : Mesh) → Runs Q (λ a. is_some a.1 ≡ true → a.0.0 ≡ none) (ask env (render mesh))
  unfolding ask perform
  rendered-Runs renders mesh = record {
    emits = render-Emits mesh;
    returns = record { at = λ log. renders.nothing_rendered log mesh };
  }

  add_namespace_labels-Emits : (s : String) → Emits Q (add_namespace_labels env s)
  unfolding add_namespace_labels set_namespace_labels
  add_namespace_labels-Emits s =
      Emits-result _ _ _ (Emits-ask env (get_mesh_namespace s) (prepares.of_get_namespace s))
        (λ n.
          Emits-when _ _ _
            (λ _. Emits-ask env (update_mesh_namespace _) (prepares.of_update_namespace _))
            (λ _. Emits-pure _))
        (λ e. Emits-pure _)

  start_set-Emits : (s : MeshStatus) (charts : List String) → Emits Q (start_set env s charts)
  unfolding start_set start_component
  start_set-Emits s [] = Emits-pure _
  start_set-Emits s (chart ∷ charts) =
      Emits-bind _ _ (Emits-bind _ _ (Emits-mesh_now env) (λ t. Emits-pure _))
        (λ c. Emits-bind _ _ (start_set-Emits s charts) (λ cs. Emits-pure _))

  start_components-Emits :
      (s : MeshStatus) (sets : List (List String)) → Emits Q (start_components env s sets)
  unfolding start_components
  start_components-Emits s [] = Emits-pure _
  start_components-Emits s (set ∷ sets) =
      Emits-bind _ _ (start_set-Emits s set)
        (λ cs. Emits-bind _ _ (start_components-Emits s sets) (λ rest. Emits-pure _))

  module _ {ns generation : String} where
    install_common-Runs :
        (r : Instance)
        → IsInstalling env ns generation r
        → Runs Q (λ step. Ends env ns generation (r, step)) (install_common env r)
    unfolding install_common
    install_common-Runs r h =
        Runs-error _ _ _ (Emits-ask env (install_crds _) (prepares.of_install_crds _))
          (λ e. Runs-pure _ (kept env ns generation r h))
          (Runs-error _ _ _
            (Emits-when _ _ _ (λ _. Emits-ask env (install_cni _) (prepares.of_install_cni _))
              (λ _. Emits-pure _))
            (λ e. Runs-pure _ (kept env ns generation r h))
            (Runs-error _ _ _ (Emits-ask env (reconcile_rbac _) (prepares.of_reconcile_rbac _))
              (λ e. Runs-pure _ (kept env ns generation r h)) (Runs-pure _ h)))

    nothing-IsKept :
        (r : Instance)
        → r.mesh.meta.namespace ≡ ns
        → current_reconciled_version env r.mesh.meta.generation ≡ generation
        → r.renderings ≡ none
        → IsKept env ns generation r
    nothing-IsKept r n g d = record {
      kept_namespace = n;
      kept_generation = g;
      kept_labelling = λ e. not_both (ap is_some d) e;
    }
      where
        not_both : {A : Type 0} {b : Bool} → b ≡ false → b ≡ true → A
        not_both e f = cc

    initialize-Runs :
        (r : Instance)
        → r.mesh.meta.namespace ≡ ns
        → current_reconciled_version env r.mesh.meta.generation ≡ generation
        → Runs Q (Ends env ns generation) (initialize env r)
    unfolding initialize
    initialize-Runs r n g = Runs-then _ _ (start_components-Emits _ _) (λ components.
        Runs-bind _ _
          (install_common-Runs _ (record { in_namespace = n; at_generation = g; labelling = g }))
          (λ step k. Runs-pure _ k))

    render_charts-Runs :
        RendersAll env
        → (r : Instance) → r.mesh.meta.namespace ≡ ns
        → current_reconciled_version env r.mesh.meta.generation ≡ generation
        → Runs Q (Ends env ns generation) (render_charts env r)
    unfolding render_charts render_failure
    render_charts-Runs renders r n g =
        Runs-bind {R = λ a. is_some a.1 ≡ true → a.0.0 ≡ none} _ _ (rendered-Runs renders r.mesh)
          (λ ((renderings, applied), e) known.
            Runs-on_error e _ _ (λ x f. Runs-pure _ (nothing-IsKept _ n g (known (ap is_some f))))
              (λ _.
                Runs-error _ _ _ (add_namespace_labels-Emits r.mesh.meta.namespace)
                  (λ x. Runs-pure _ (nothing-IsKept _ n g refl))
                  (initialize-Runs (with_rendered env renderings applied r) n g)))

    check_conversion-Runs :
        RendersAll env
        → (field : ErrorField) (r : Instance) (reason message : String) → r.renderings ≡ none
        → r.mesh.meta.namespace ≡ ns
        → current_reconciled_version env r.mesh.meta.generation ≡ generation
        → Runs Q (Ends env ns generation) (check_conversion env field r reason message)
    unfolding check_conversion
    check_conversion-Runs renders no_error r reason message d n g = render_charts-Runs renders r n g
    check_conversion-Runs renders (unreadable text) r reason message d n g =
        Runs-pure _ (nothing-IsKept r n g d)
    check_conversion-Runs renders (conversion_error text) r reason message d n g =
        Runs-pure _ (nothing-IsKept r n g d)

    pub prepare-Runs :
        RendersAll env
        → (r : Instance) (reason message : String) → r.renderings ≡ none
        → IsKept env ns generation r
        → Runs Q (Ends env ns generation) (prepare env r reason message)
    unfolding prepare
    prepare-Runs renders r reason message d h =
        check_conversion-Runs renders r.mesh.errored_message _ reason message d h.kept_namespace
          h.kept_generation

module _ {E : Type 0} (env : MeshEnv E) (selecting : IsSelecting env) (renders : RendersAll env)
    {ns generation : String} {Q : MeshCall → Type 0} (allows : Allows env ns generation Q)
    (prepares : AllowsPreparing Q) where
  start-Runs :
      (r : Instance) (reason message : String)
      → r.renderings ≡ none
      → IsKept env ns generation r
      → Runs Q (Ends env ns generation) (start env r reason message)
  unfolding start
  start-Runs r reason message d h =
      Runs-bind _ _ (prepare-Runs env prepares renders r reason message d h) (λ prepared k.
        Runs-bind _ _
          (and_then-Runs env selecting allows prepared _ k
            (λ next n. install-Runs env selecting allows next reason message n))
          (λ ended l. note_failure-Runs env selecting allows ended l))

  run-Runs :
      (r : Instance) (reason message : String)
      → IsKept env ns generation r
      → Runs Q (Ends env ns generation) (run env r reason message)
  unfolding run
  run-Runs r reason message h =
      Runs-on_error (env.version_error r.mesh.version) _ _ (λ x _. Runs-pure _ h)
        (λ _.
          Runs-when (is_some r.renderings) _ _
            (λ e.
              resume-Runs env selecting allows r reason message
                (installing env selecting allows r e h))
            (λ e. start-Runs r reason message (not_set r.renderings e) h))
    where
      not_set : {A : Type 0} (o : Option A) → is_some o ≡ false → o ≡ none
      not_set none h = refl
      not_set (some a) h = cc

  pub reconcile_instance-Runs :
      (r : Instance)
      → IsKept env ns generation r
      → Runs Q (λ result. IsKept env ns generation result.0) (reconcile_instance env r)
  reconcile_instance-Runs r h =
      whole-Runs env selecting allows r h (λ reason message. run-Runs r reason message h)
