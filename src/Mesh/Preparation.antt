-- ===== src/Mesh/Preparation.antt =====
-- Reconcile of pkg/controller/servicemesh/controlplane/reconciler.go: where its parts end, and the part
-- that renders the charts and prepares their installation.
use istio_operator.Prelude.{
  ◌+◌, Bool, String, [], ◌∷◌, Option, none, some, ◌==◌, if◌then◌else◌, concat,
}
use istio_operator.Prog.{Prog, pure, ◌>>=◌, on_error, when}
use istio_operator.Status.{get_condition, set_annotation}
use istio_operator.Mesh.Objects.{ErrorField, no_error, conversion_error, unreadable}
use istio_operator.Mesh.Calls.{
  MeshEnv, MeshCall, Renderings, ask, mesh_now, render, install_crds, install_cni, reconcile_rbac,
  mesh_event,
}
use istio_operator.Mesh.Namespaces.{add_namespace_labels}
use istio_operator.Mesh.Posting.{is_updating, current_reconciled_version}
use istio_operator.Mesh.Installation.{
  Instance, or_empty, get_charts_in_installation_order, start_components,
}

-- Where a part of Reconcile ends: the function goes on, or returns with the reason and the message of
-- the Reconciled condition and an error.
pub data Step (E : Type 0) : Type 0 where
  go_on : Step E
  stop : String → String → Option E → Step E

-- IsFinished
unfoldable pub is_finished : Instance → Bool
is_finished r = (get_condition "Reconciled" r.status.conditions).status == "True"

module _ {E : Type 0} (env : MeshEnv E) where
  open env use {errors, sorted, print_list}

  -- hacks.SkipReconciliationUntilCacheSynced: two seconds from now
  unfoldable pub skip_until_synced : Instance → Prog MeshCall Instance
  skip_until_synced r = do t ← mesh_now env; pure (record r { earliest = some (t + 2) })

  -- pauseReconciliation: the reason and the message
  unfoldable pub pause_reconciliation : Instance → Prog MeshCall (Step E)
  pause_reconciliation r = do
    let message = concat (
        "Paused until the following components become ready: "
        ∷ print_list (sorted r.wait_for_components)
        ∷ [])
    let updating = is_updating env r.mesh
    _ ←
        ask env
          (mesh_event "Normal" (if updating then "PausingUpdate" else "PausingInstall") message)
    pure (stop (if updating then "PausingUpdate" else "PausingInstall") message none)

  -- The reason and the message for an error of rendering
  unfoldable pub dependency_texts : Option String → String × String
  dependency_texts none = ("ReconcileError", "Error rendering helm charts")
  dependency_texts (some dependency) =
      ("DependencyMissingError", concat ("Dependency \"" ∷ dependency ∷ "\" is missing" ∷ []))

  unfoldable pub failure_texts : E → String × String
  unfolding dependency_texts
  failure_texts e =
      if env.is_validation_error e
      then ("ValidationError", "Spec is invalid")
      else dependency_texts (env.missing_dependency e)

  unfoldable pub render_failure : E → Step E
  unfolding failure_texts
  render_failure e =
      let (reason, message) = failure_texts e in stop reason message (some (errors.wrap message e))

  -- The installation of what every mesh needs: resource definitions, CNI and RBAC objects
  unfoldable pub install_common : Instance → Prog MeshCall (Step E)
  install_common r = do
    crd_error ← ask env (install_crds r.mesh.version)
    on_error crd_error
        (λ e. pure (stop "ReconcileError" "Failed to install/update Istio CRDs" (some e)))
        (do
          cni_error ← when env.cni_enabled (ask env (install_cni r.mesh.version)) (pure none)
          on_error cni_error
              (λ e. pure (stop "ReconcileError" "Failed to install/update Istio CNI" (some e)))
              (do
                rbac_error ← ask env (reconcile_rbac r.mesh)
                on_error rbac_error
                    (λ e. pure (
                      stop "ReconcileError" "Failed to install/update Maistra RBAC resources"
                        (some e)))
                    (pure go_on)))

  -- What follows the labelling of the mesh's namespace
  unfoldable pub initialize : Instance → Prog MeshCall (Instance × Step E)
  unfolding install_common
  initialize r = do
    let s = r.status
    components ← start_components env s (
        get_charts_in_installation_order env.is_istio_chart (or_empty r.renderings)
          (env.chart_install_order r.mesh.version))
    let started = record r {
      status = record s { component_status = components };
      mesh_generation = current_reconciled_version env r.mesh.meta.generation;
    }
    step ← install_common started
    pure (started, step)

  -- What rendering leaves: the renderings, and what was applied, in both statuses
  unfoldable pub with_rendered : Option Renderings → String → Instance → Instance
  with_rendered renderings applied r =
      let s = r.status in
      let m = r.mesh in
      let ms = m.status in
      record r {
        renderings = renderings;
        mesh = record m { status = record ms { applied = applied } };
        status = record s { applied = applied };
      }

  -- The rendering of the charts, and what follows it
  unfoldable pub render_charts : Instance → Prog MeshCall (Instance × Step E)
  unfolding with_rendered render_failure initialize
  render_charts r = do
    ((renderings, applied), render_error) ← ask env (render r.mesh)
    let rendered = with_rendered renderings applied r
    on_error render_error (λ e. pure (rendered, render_failure e))
        (do
          label_error ← add_namespace_labels env r.mesh.meta.namespace
          on_error label_error
              (λ e. pure (
                record rendered { renderings = none },
                stop "ReconcileError" "Error updating labels on mesh namespace"
                    (some (errors.wrap "Error updating labels on mesh namespace" e)),
              ))
              (initialize rendered))

  -- What the conversion error says, if there is one
  unfoldable pub check_conversion :
      ErrorField → Instance → String → String → Prog MeshCall (Instance × Step E)
  unfolding render_charts
  check_conversion no_error r reason message = render_charts r
  check_conversion (unreadable text) r reason message =
      pure (r, stop reason message (some (errors.errorf text)))
  check_conversion (conversion_error text) r reason message = pure (
    r,
    stop "ValidationError" "Reconciliation skipped due to presence of a conversion error"
        (some (errors.errorf (concat ("conversion error: " ∷ text ∷ [])))),
  )

  -- The part of Reconcile that runs where nothing is rendered yet
  unfoldable pub prepare : Instance → String → String → Prog MeshCall (Instance × Step E)
  unfolding check_conversion
  prepare r reason message =
      let s = r.status in
      let cleared = record s {
        annotations = set_annotation "alwaysReadyComponents" "" s.annotations;
      } in
      check_conversion r.mesh.errored_message (record r { status = cleared }) reason message
