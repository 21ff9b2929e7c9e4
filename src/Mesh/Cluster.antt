-- ===== src/Mesh/Cluster.antt =====
-- calculateComponentReadiness in a cluster whose workloads do not change while they are listed.
use istio_operator.Prelude.{
  ◌≤◌, ◌≡◌, refl, Bool, true, not, ◌&&◌, ◌||◌, String, List, [], ◌∷◌, ◌++◌, Option, none, some, Map,
  lookup, has, insert, arith, ap, sym, ◌∙◌,
}
use istio_operator.Prog.{Result, ok, err, Prog, on_result}
use istio_operator.Prog.Returns.{Returns, Returns-pure}
use istio_operator.Prog.Answered.{Returns-answered}
use istio_operator.Status.{Annotations}
use istio_operator.Kube.{ObjectMeta}
use istio_operator.Common.{get_label}
use istio_operator.Mesh.Labelling.{kubernetes_app_component_key}
use istio_operator.Mesh.Objects.{Deployment, StatefulSet, DaemonSet, Mesh}
use istio_operator.Mesh.Calls.{
  MeshEnv, MeshCall, Returns-ask, list_deployments, list_stateful_sets, list_daemon_sets,
}
use istio_operator.Mesh.Readiness.{
  note_ready, note_item, note_items, note_always, ready_names, deployment_ready, stateful_set_ready,
  daemon_set_ready, calculate_readiness_for_type, get_namespaces_to_check, always_ready,
  check_types, calculate_component_readiness_map, calculate_component_readiness,
}
use istio_operator.Mesh.Reported.{
  Workload, view, has_workload, all_ready, noted, noted-append, noted-none, lookup-note_items,
  lookup-note_always, note_items-append, count_key, count_key-insert, has-ready_names, is_true,
  is_false,
}

-- The items of all namespaces, in order.
unfoldable pub in_all : {A : Type 0} → (String → List A) → List String → List A
in_all items [] = []
in_all items (ns ∷ nss) = items ns ++ in_all items nss

-- What calculateComponentReadiness reports, given the components that are always ready and the
-- workloads: the ready components are those always ready and those with workloads that are all
-- ready; the others are the components with a workload that is not.
abbrev pub Reports :
    {E : Type 0} → List String → List Workload → Result E (List String × List String) → Type 0
Reports always ws (ok (readies, others)) =
    (c : String)
    → (has c readies ≡ (has c always || (has_workload c ws && all_ready c ws)))
      × (has c others ≡ (not (has c always) && (has_workload c ws && not (all_ready c ws))))
Reports always ws (err e) = ⊥

module _ {A : Type 0} (meta_of : A → ObjectMeta) (is_ready : A → Bool) where
  listed_type :
      {E : Type 0} (list : String → Prog MeshCall (Result E (List A))) (items : String → List A)
      → ((ns : String) → Returns (λ r. r ≡ ok (items ns)) (list ns))
      → (nss : List String) (m : Map Bool)
      → Returns
          (λ r. r ≡ ok (note_items meta_of is_ready (in_all items nss) m))
          (calculate_readiness_for_type meta_of is_ready list nss m)
  unfolding calculate_readiness_for_type in_all on_result
  listed_type list items known [] m = Returns-pure _ refl
  listed_type list items known (ns ∷ nss) m =
      Returns-answered (list ns) _ (ok (items ns)) (known ns) (
        rw (note_items-append)
          (listed_type list items known nss (note_items meta_of is_ready (items ns) m)))

  count_key-note_item :
      (a : A) (o : Option String) (c : String) (m : Map Bool)
      → get_label (meta_of a) kubernetes_app_component_key ≡ o
      → count_key c m ≤ 1
      → count_key c (note_item meta_of is_ready a m) ≤ 1
  unfolding note_item
  count_key-note_item a none c m h u = rw (note_item, h) u
  count_key-note_item a (some d) c m h u =
      rw (note_item, h)
        (ground (arith, count_key-insert c d (note_ready (is_ready a) (lookup d m)) m))

  count_key-note_items :
      (c : String) (items : List A) (m : Map Bool)
      → count_key c m ≤ 1
      → count_key c (note_items meta_of is_ready items m) ≤ 1
  unfolding note_items
  count_key-note_items c [] m u = u
  count_key-note_items c (a ∷ items) m u =
      count_key-note_items c items (note_item meta_of is_ready a m)
        (count_key-note_item a (get_label (meta_of a) kubernetes_app_component_key) c m refl u)

count_key-note_always :
    (c : String) (cs : List String) (m : Map Bool)
    → count_key c m ≤ 1
    → count_key c (note_always cs m) ≤ 1
unfolding note_always
count_key-note_always c [] m u = u
count_key-note_always c (d ∷ cs) m u =
    count_key-note_always c cs (insert d true m) (ground (arith, count_key-insert c d true m))

module _ {E : Type 0} (env : MeshEnv E) (owner : String) where
  -- A cluster that answers every list with the same workloads of each namespace.
  pub record Cluster : Type 0 where
    pub deployments : String → List Deployment
    pub stateful_sets : String → List StatefulSet
    pub daemon_sets : String → List DaemonSet
    pub listed_deployments :
        (log : List MeshCall) (ns : String)
        → env.reply log (list_deployments ns owner) ≡ ok (deployments ns)
    pub listed_stateful_sets :
        (log : List MeshCall) (ns : String)
        → env.reply log (list_stateful_sets ns owner) ≡ ok (stateful_sets ns)
    pub listed_daemon_sets :
        (log : List MeshCall) (ns : String)
        → env.reply log (list_daemon_sets ns owner) ≡ ok (daemon_sets ns)

module _ {E : Type 0} (env : MeshEnv E) where
  -- The workloads of some namespaces, in the order in which they are read.
  unfoldable pub workloads_of : {owner : String} → Cluster env owner → List String → List Workload
  workloads_of cluster nss =
      view (λ (d : Deployment). d.meta) deployment_ready (in_all cluster.deployments nss)
      ++ view (λ (s : StatefulSet). s.meta) stateful_set_ready (in_all cluster.stateful_sets nss)
      ++ view (λ (d : DaemonSet). d.meta) daemon_set_ready (in_all cluster.daemon_sets nss)

  -- The map that the workloads of some namespaces give.
  readiness_of : {owner : String} → Cluster env owner → List String → Map Bool
  readiness_of cluster nss =
      note_items (λ (d : DaemonSet). d.meta) daemon_set_ready (in_all cluster.daemon_sets nss)
        (note_items (λ (s : StatefulSet). s.meta) stateful_set_ready
          (in_all cluster.stateful_sets nss)
          (note_items (λ (d : Deployment). d.meta) deployment_ready (in_all cluster.deployments nss)
            []))

  check_types_lem :
      {owner : String} (cluster : Cluster env owner) (nss : List String)
      → Returns (λ r. r ≡ ok (readiness_of cluster nss)) (check_types env owner nss [])
  unfolding check_types readiness_of on_result
  check_types_lem cluster nss =
      Returns-answered _ _ _
        (listed_type _ _ _ cluster.deployments
          (λ ns.
            Returns-ask env (list_deployments ns _) _ (λ log. cluster.listed_deployments log ns))
          nss [])
        (Returns-answered _ _ _
          (listed_type _ _ _ cluster.stateful_sets
            (λ ns.
              Returns-ask env (list_stateful_sets ns _) _
                (λ log. cluster.listed_stateful_sets log ns))
            nss _)
          (listed_type _ _ _ cluster.daemon_sets
            (λ ns.
              Returns-ask env (list_daemon_sets ns _) _ (λ log. cluster.listed_daemon_sets log ns))
            nss _))

  lookup-readiness_of :
      {owner : String} (cluster : Cluster env owner) (nss : List String) (c : String)
      → lookup c (readiness_of cluster nss) ≡ noted c (workloads_of cluster nss) none
  unfolding readiness_of workloads_of lookup
  lookup-readiness_of cluster nss c =
      let d : List Workload =
        view (λ (x : Deployment). x.meta) deployment_ready (in_all cluster.deployments nss) in
      let s : List Workload =
        view (λ (x : StatefulSet). x.meta) stateful_set_ready (in_all cluster.stateful_sets nss) in
      let e : List Workload =
        view (λ (x : DaemonSet). x.meta) daemon_set_ready (in_all cluster.daemon_sets nss) in
      lookup-note_items _ _ c (in_all cluster.daemon_sets nss) _
      ∙ ap (noted c e) (
          lookup-note_items _ _ c (in_all cluster.stateful_sets nss) _
          ∙ ap (noted c s) (lookup-note_items _ _ c (in_all cluster.deployments nss) []))
      ∙ sym (noted-append c (d ++ s) e none ∙ ap (noted c e) (noted-append c d s none))

  count_key-readiness_of :
      {owner : String} (cluster : Cluster env owner) (nss : List String) (c : String)
      → count_key c (readiness_of cluster nss) ≤ 1
  unfolding readiness_of count_key
  count_key-readiness_of cluster nss c =
      count_key-note_items _ _ c _ _
        (count_key-note_items _ _ c _ _ (count_key-note_items _ _ c _ [] (omega arith)))

  reports :
      {owner : String} (cluster : Cluster env owner) (nss always : List String) (c : String)
      → let found = ready_names (note_always always (readiness_of cluster nss)) in
        let ws = workloads_of cluster nss in
        (has c found.0 ≡ (has c always || (has_workload c ws && all_ready c ws)))
        × (has c found.1 ≡ (not (has c always) && (has_workload c ws && not (all_ready c ws))))
  unfolding is_true is_false
  reports cluster nss always c = ground (
    arith,
    has-ready_names c (note_always always (readiness_of cluster nss)),
    count_key-note_always c always (readiness_of cluster nss)
        (count_key-readiness_of cluster nss c),
    lookup-note_always c always (readiness_of cluster nss),
    lookup-readiness_of cluster nss c,
    noted-none c (workloads_of cluster nss),
  )

  -- Where the cluster's workloads do not change while they are listed, and given the namespaces of
  -- the mesh that are checked, calculateComponentReadiness succeeds, and reports as ready exactly the
  -- components that are always ready or that have workloads which are all ready, and as not ready
  -- exactly the other components that have a workload.
  pub calculate_component_readiness_lem :
      (mesh : Mesh) (annotations : Annotations) (cluster : Cluster env mesh.meta.namespace)
      (nss : List String)
      → Returns (λ r. r ≡ ok nss) (get_namespaces_to_check env mesh)
      → Returns
          (Reports (always_ready env annotations) (workloads_of cluster nss))
          (calculate_component_readiness env mesh annotations)
  unfolding calculate_component_readiness calculate_component_readiness_map on_result
  calculate_component_readiness_lem mesh annotations cluster nss known =
      Returns-answered (calculate_component_readiness_map env mesh annotations) _
        (ok (note_always (always_ready env annotations) (readiness_of cluster nss)))
        (Returns-answered (get_namespaces_to_check env mesh) _ (ok nss) known (
          Returns-answered (check_types env mesh.meta.namespace nss []) _ _
            (check_types_lem cluster nss) (Returns-pure _ refl)))
        (Returns-pure _ (reports cluster nss (always_ready env annotations)))
