-- ===== src/Mesh/Installation.antt =====
-- pkg/controller/servicemesh/controlplane/reconciler.go and manifestprocessing.go: the charts of a
-- mesh, the order in which they are installed, and the installation of one of them.
use istio_operator.Prelude.{
  ℕ, Bool, true, false, not, ◌&&◌, ◌||◌, String, List, [], ◌∷◌, ◌++◌, Option, none, some, is_some,
  lookup, delete, has, set_insert, ◌==◌, if◌then◌else◌, concat,
}
use istio_operator.Prog.{Prog, pure, ◌>>=◌, on_result, on_error}
use istio_operator.Status.{
  set_condition, ComponentStatus, new_component_status, find_component_by_name, get_annotation,
  set_annotation,
}
use istio_operator.Common.{member_roll_name, get_mesh_namespaces}
use istio_operator.Mesh.Objects.{Mesh, MeshStatus, Manifest, ObjectName}
use istio_operator.Mesh.Calls.{
  MeshEnv, MeshCall, Renderings, ask, mesh_now, get_smmr, process_manifests,
}
use istio_operator.Mesh.Conditions.{condition, update_component_conditions}

-- controlPlaneInstanceReconciler, with the entry for its mesh in the map of earliest reconciliation
-- times that the context carries. The owner references are not read by what is modelled.
pub record Instance : Type 0 where
  pub mesh : Mesh
  pub status : MeshStatus
  pub mesh_generation : String
  pub chart_version : String
  -- `none` is a nil map
  pub renderings : Option Renderings
  pub wait_for_components : List String
  pub earliest : Option ℕ

abbrev pub or_empty : Option Renderings → Renderings
or_empty none = []
or_empty (some r) = r

-- The charts of a set that are rendered, and the set of charts seen so far
unfoldable pub charts_to_deploy : Renderings → List String → List String
charts_to_deploy r [] = []
charts_to_deploy r (chart ∷ charts) =
    let rest = charts_to_deploy r charts in if is_some (lookup chart r) then chart ∷ rest else rest

unfoldable pub insert_seen : List String → List String → List String
insert_seen [] seen = seen
insert_seen (chart ∷ charts) seen = insert_seen charts (set_insert chart seen)

abbrev pub add_charts : List String → List (List String) → List (List String)
add_charts [] charts = charts
add_charts (c ∷ cs) charts = (c ∷ cs) ∷ charts

-- The first loop of getChartsInInstallationOrder
unfoldable pub ordered_sets : Renderings → List (List String) → List (List String)
unfolding charts_to_deploy
ordered_sets r [] = []
ordered_sets r (set ∷ sets) = add_charts (charts_to_deploy r set) (ordered_sets r sets)

unfoldable pub seen_in_sets : Renderings → List (List String) → List String → List String
unfolding charts_to_deploy insert_seen
seen_in_sets r [] seen = seen
seen_in_sets r (set ∷ sets) seen = seen_in_sets r sets (insert_seen (charts_to_deploy r set) seen)

-- The loops over the renderings: the charts that `wanted` selects and that were not seen
unfoldable pub unseen_charts : (String → Bool) → Renderings → List String → List (List String)
unseen_charts wanted [] seen = []
unseen_charts wanted ((chart, _) ∷ rest) seen =
    let others = unseen_charts wanted rest seen in
    if wanted chart && not (has chart seen) then (chart ∷ []) ∷ others else others

unfoldable pub seen_after : (String → Bool) → Renderings → List String → List String
seen_after wanted [] seen = seen
seen_after wanted ((chart, _) ∷ rest) seen =
    let others = seen_after wanted rest seen in
    if wanted chart && not (has chart seen) then set_insert chart others else others

-- getChartsInInstallationOrder; `is_istio` tells the charts with the prefix istio/
unfoldable pub get_charts_in_installation_order :
    (String → Bool) → Renderings → List (List String) → List (List String)
unfolding ordered_sets seen_in_sets unseen_charts seen_after
get_charts_in_installation_order is_istio r ordered =
    let seen = seen_in_sets r ordered [] in
    ordered_sets r ordered
    ++ unseen_charts is_istio r seen
    ++ unseen_charts (λ _. true) r (seen_after is_istio r seen)

-- kindsWithReadiness.Has
unfoldable pub has_readiness : String → Bool
has_readiness kind = has kind ("Deployment" ∷ "StatefulSet" ∷ "DaemonSet" ∷ [])

unfoldable pub any_with_readiness : List Manifest → Bool
unfolding has_readiness
any_with_readiness [] = false
any_with_readiness (m ∷ ms) = has_readiness m.kind || any_with_readiness ms

-- anyComponentHasReadiness; a chart that is not rendered has no manifests
unfoldable pub any_component_has_readiness : Option (List Manifest) → Bool
unfolding any_with_readiness
any_component_has_readiness none = false
any_component_has_readiness (some ms) = any_with_readiness ms

-- Replaces the component's status, which Go updates through a pointer
unfoldable pub put_component : ComponentStatus → List ComponentStatus → List ComponentStatus
put_component c [] = []
put_component c (s ∷ ss) = if s.resource == c.resource then c ∷ ss else s ∷ put_component c ss

unfoldable pub or_new_component : String → Option ComponentStatus → ComponentStatus
unfolding new_component_status
or_new_component name none =
    let fresh : ComponentStatus = new_component_status in record fresh { resource = name }
or_new_component name (some c) = c

module _ {E : Type 0} (env : MeshEnv E) where
  open env use {errors, sorted, print_list, file_name}

  -- The status that the loop over charts starts a component with
  unfoldable pub start_component : MeshStatus → String → Prog MeshCall ComponentStatus
  unfolding condition or_new_component
  start_component s name = do
    t ← mesh_now env
    let c = or_new_component name (find_component_by_name name s.component_status)
    pure (record c {
      conditions = set_condition t (condition "Reconciled" "False" "" "") c.conditions;
    })

  unfoldable pub start_set : MeshStatus → List String → Prog MeshCall (List ComponentStatus)
  unfolding start_component
  start_set s [] = pure []
  start_set s (chart ∷ charts) = do
    c ← start_component s (file_name chart)
    cs ← start_set s charts
    pure (c ∷ cs)

  -- The loops that initialise the statuses of the components
  unfoldable pub start_components :
      MeshStatus → List (List String) → Prog MeshCall (List ComponentStatus)
  unfolding start_set
  start_components s [] = pure []
  start_components s (set ∷ sets) = do
    cs ← start_set s set
    rest ← start_components s sets
    pure (cs ++ rest)

  -- The objects of a manifest that are in no namespace of the mesh
  unfoldable pub outside : List String → String → List (Option ObjectName) → List E
  outside namespaces name [] = []
  outside namespaces name (none ∷ os) = outside namespaces name os
  outside namespaces name (some o ∷ os) =
      let rest = outside namespaces name os in
      if o.namespace == "" || has o.namespace namespaces
      then rest
      else errors.errorf (
          concat
            (name ∷ ": namespace of manifest " ∷ o.namespace ∷ "/" ∷ o.name ∷ " not in mesh" ∷ []))
        ∷ rest

  unfoldable pub outside_manifests : List String → List Manifest → List E
  unfolding outside
  outside_manifests namespaces [] = []
  outside_manifests namespaces (m ∷ ms) =
      outside namespaces m.name (env.parse_objects m.content) ++ outside_manifests namespaces ms

  unfoldable pub outside_renderings : List String → Renderings → List E
  unfolding outside_manifests
  outside_renderings namespaces [] = []
  outside_renderings namespaces ((_, ms) ∷ rest) =
      outside_manifests namespaces ms ++ outside_renderings namespaces rest

  -- The end of validateManifests, for the error of reading the member roll
  unfoldable pub validation_error : Option E → List E → Option E
  validation_error retrieval_error [] = none
  validation_error (some e) (x ∷ xs) = some e
  validation_error none (x ∷ xs) = errors.new_aggregate (x ∷ xs)

  -- validateManifests; a roll that cannot be read, or is not found, lists no members
  unfoldable pub validate_manifests : Instance → Prog MeshCall (Option E)
  unfolding outside_renderings validation_error
  validate_manifests r = do
    let ns = r.mesh.meta.namespace
    got ← ask env (get_smmr (record { namespace = ns; name = member_roll_name }))
    on_result got
        (λ smmr. pure (
          validation_error none
            (outside_renderings (get_mesh_namespaces ns (some smmr)) (or_empty r.renderings))))
        (λ e. pure (
          validation_error (some e)
            (outside_renderings (get_mesh_namespaces ns none) (or_empty r.renderings))))

  -- The part of processComponentManifests for manifests, with the status of the component; a status
  -- that is missing is a nil pointer
  unfoldable pub apply_manifests :
      Instance → List Manifest → Option ComponentStatus → Prog MeshCall (Instance × Bool × Option E)
  unfolding update_component_conditions put_component
  apply_manifests r manifests none = pure (r, false, some env.nil_dereference)
  apply_manifests r manifests (some c) = do
    (changes, label, e) ← ask env (process_manifests manifests c.resource r.mesh_generation)
    updated ← update_component_conditions env c e
    let s = r.status
    let s' = record s { component_status = put_component updated s.component_status }
    let version = if r.chart_version == "" then label else r.chart_version
    pure (record r { status = s'; chart_version = version }, changes, e)

  unfoldable pub process_rendered :
      Instance → String → Option (List Manifest) → Prog MeshCall (Instance × Bool × Option E)
  unfolding apply_manifests
  process_rendered r chart none = pure (r, false, none)
  process_rendered r chart (some manifests) =
      apply_manifests r manifests
        (find_component_by_name (file_name chart) r.status.component_status)

  -- processComponentManifests: whether it made changes, and the error
  unfoldable pub process_component_manifests :
      Instance → String → Prog MeshCall (Instance × Bool × Option E)
  unfolding process_rendered
  process_component_manifests r chart =
      process_rendered r chart (lookup chart (or_empty r.renderings))

  -- What is done with a chart once it is installed: wait for it, or note that it is always ready
  unfoldable pub note_installed : Instance → String → Instance
  unfolding any_component_has_readiness
  note_installed r chart =
      let component = file_name chart in
      let s = r.status in
      let always = get_annotation "alwaysReadyComponents" s.annotations in
      let left = some (delete chart (or_empty r.renderings)) in
      if any_component_has_readiness (lookup chart (or_empty r.renderings))
      then record r {
        wait_for_components = set_insert component r.wait_for_components;
        renderings = left;
      }
      else record r {
        status = record s {
          annotations =
              set_annotation "alwaysReadyComponents"
                (if always == "" then component else concat (always ∷ "," ∷ component ∷ []))
                s.annotations;
        };
        renderings = left;
      }

  -- The loop over the charts of a set: whether it made changes, and the component that failed with
  -- its error
  unfoldable pub install_charts :
      Instance → List String → Bool → Prog MeshCall (Instance × Bool × Option (String × E))
  unfolding process_component_manifests note_installed
  install_charts r [] made_changes = pure (r, made_changes, none)
  install_charts r (chart ∷ charts) made_changes = do
    (processed, changes, e) ← process_component_manifests r chart
    on_error e (λ x. pure (processed, made_changes || changes, some (file_name chart, x)))
        (install_charts (note_installed processed chart) charts (made_changes || changes))
