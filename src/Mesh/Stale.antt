-- ===== src/Mesh/Stale.antt =====
-- What pruning deletes, and what it leaves to the objects that were labelled for a generation.
use istio_operator.Prelude.{
  ◌≡◌, ◌≢◌, refl, ◌++◌, Bool, true, false, String, List, [], ◌∷◌, Option, none, some, All,
  if◌then◌else◌, ap, sym, subst,
}
use istio_operator.Prog.{Result, ok, err}
use istio_operator.Prog.Emits.{
  Emits, Emits-on_result, Emits-error, Emits-result, Emits-when, Emits-pure, Emits-bind,
  emits_rules,
}
use istio_operator.Prog.Returns.{Returns, Returns-bind, Returns-on_result, Returns-pure}
use istio_operator.Prog.Known.{Emits-known}
use istio_operator.Kube.{ObjectMeta}
use istio_operator.Common.{get_label, owner_key, kubernetes_app_version_key}
use istio_operator.Mesh.Objects.{GroupVersionKind, Crd, Requirement, equals, not_equals}
use istio_operator.Mesh.Calls.{
  MeshEnv, MeshCall, ask, list_crds, list_objects, delete_object, Emits-ask, Emits-answered,
}
use istio_operator.Mesh.Pruning.{
  PruneConfig, kubernetes_app_managed_by_key, kubernetes_app_managed_by_value, selector_of,
  if_checked, check_all, create_label_selector, builtin_configs, builtin_types, crd_configs,
  find_resources_to_prune, delete_listed, prune_individually, prune_each, prune_resources, prune,
}

-- What a requirement asks of the labels, as the documentation of label selectors has it: an
-- inequality also holds where the label is missing.
abbrev pub Meets : ObjectMeta → Requirement → Type 0
Meets o r = elim r.operator [
  | equals ↦ get_label o r.key ≡ some r.value
  | not_equals ↦ get_label o r.key ≢ some r.value
]

-- An API server that honours selectors: what it lists meets all the requirements.
pub record IsSelecting {E : Type 0} (env : MeshEnv E) : Type 0 where
  pub selected :
      (log : List MeshCall) (gvk : GroupVersionKind) (rs : List Requirement) (os : List ObjectMeta)
      → env.reply log (list_objects gvk rs) ≡ ok os
      → All (λ o. All (Meets o) rs) os

-- An object that pruning may delete: the operator made it for the mesh, and not for the generation.
pub record IsStale (mesh_namespace generation : String) (o : ObjectMeta) : Type 0 where
  pub managed : get_label o kubernetes_app_managed_by_key ≡ some kubernetes_app_managed_by_value
  pub owned : get_label o owner_key ≡ some mesh_namespace
  pub other_version : get_label o kubernetes_app_version_key ≢ some generation

IsStale-objects :
    (mesh_namespace generation : String) (os : List ObjectMeta)
    → All (λ o. All (Meets o) (selector_of mesh_namespace generation)) os
    → All (IsStale mesh_namespace generation) os
unfolding selector_of
IsStale-objects mesh_namespace generation [] h = tt
IsStale-objects mesh_namespace generation (o ∷ os) ((m, (w, (v, _))), hs) = (
  record { managed = m; owned = w; other_version = v },
  IsStale-objects mesh_namespace generation os hs,
)

IsIndividual : PruneConfig → Type 0
IsIndividual config = config.supports_delete_collection ≡ false

one_more :
    (gvk : GroupVersionKind) (configs : List PruneConfig) (b : Bool)
    → All IsIndividual configs
    → All IsIndividual
        (if b then record { gvk = gvk; supports_delete_collection = false } ∷ configs else configs)
unfolding IsIndividual
one_more gvk configs true h = (refl, h)
one_more gvk configs false h = h

-- A predicate that allows the calls of pruning.
pub record AllowsPruning (mesh_namespace generation : String) (Q : MeshCall → Type 0) : Type 0 where
  pub of_list_crds : Q list_crds
  pub of_list_objects : (gvk : GroupVersionKind) (rs : List Requirement) → Q (list_objects gvk rs)
  pub of_delete :
      (gvk : GroupVersionKind) (o : ObjectMeta)
      → IsStale mesh_namespace generation o
      → Q (delete_object gvk o)

module _ {E : Type 0} (env : MeshEnv E) where
  value_of : List Requirement → Result E (List Requirement) → List Requirement
  value_of rs (ok qs) = qs
  value_of rs (err e) = rs

  checked_lem : (o : Option E) (qs rs : List Requirement) → if_checked env o qs ≡ ok rs → rs ≡ qs
  unfolding if_checked value_of
  checked_lem none qs rs h = sym (ap (value_of qs) h)
  checked_lem (some e) qs rs h = sym (ap (value_of qs) h)

  created_selector :
      (mesh_namespace generation : String) (rs : List Requirement)
      → create_label_selector env mesh_namespace generation ≡ ok rs
      → rs ≡ selector_of mesh_namespace generation
  unfolding create_label_selector
  created_selector mesh_namespace generation rs h =
      checked_lem (check_all env (selector_of mesh_namespace generation)) _ rs h

  absurd_config :
      {A : Type 0} (config : PruneConfig)
      → config.supports_delete_collection ≡ true
      → config.supports_delete_collection ≡ false
      → A
  absurd_config config c i = cc

  builtin_lem :
      (gvks : List GroupVersionKind) (cs : List PruneConfig)
      → All IsIndividual cs
      → All IsIndividual (builtin_configs gvks ++ cs)
  unfolding builtin_configs IsIndividual
  builtin_lem [] cs h = h
  builtin_lem (gvk ∷ gvks) cs h = (refl, builtin_lem gvks cs h)

  crd_lem : (crds : List Crd) → All IsIndividual (crd_configs crds)
  unfolding crd_configs IsIndividual
  crd_lem [] = tt
  crd_lem (crd ∷ crds) = one_more _ (crd_configs crds) _ (crd_lem crds)

  IsFound : Result E (List PruneConfig) → Type 0
  IsFound r = (configs : List PruneConfig) → r ≡ ok configs → All IsIndividual configs

  configs_of : Result E (List PruneConfig) → List PruneConfig
  configs_of (ok cs) = cs
  configs_of (err x) = []

  found_lem : (r : Result E (List PruneConfig)) → All IsIndividual (configs_of r) → IsFound r
  unfolding configs_of IsFound
  found_lem r h configs e = subst (All IsIndividual) (ap configs_of e) h

  find_resources_to_prune-IsFound : Returns IsFound (find_resources_to_prune env)
  unfolding find_resources_to_prune configs_of
  find_resources_to_prune-IsFound = Returns-bind _ _ (λ r.
      Returns-on_result r _ _
        (λ crds _. Returns-pure _ (found_lem _ (builtin_lem builtin_types _ (crd_lem crds))))
        (λ x _. Returns-pure _ (found_lem (err x) tt)))

module _ {E : Type 0} (env : MeshEnv E) (selecting : IsSelecting env)
    {mesh_namespace generation : String} {Q : MeshCall → Type 0}
    (allows : AllowsPruning mesh_namespace generation Q) where
  delete_listed-Emits :
      (gvk : GroupVersionKind) (os : List ObjectMeta)
      → All (IsStale mesh_namespace generation) os
      → Emits Q (delete_listed env gvk os)
  unfolding delete_listed
  delete_listed-Emits gvk [] h = search emits_rules
  delete_listed-Emits gvk (o ∷ os) (s, hs) =
      Emits-error (ask env (delete_object gvk o)) _ _
        (Emits-ask env (delete_object gvk o) (allows.of_delete gvk o s))
        (λ x. Emits-when _ _ _ (λ _. Emits-pure _) (λ _. delete_listed-Emits gvk os hs))
        (delete_listed-Emits gvk os hs)

  prune_individually-Emits :
      (gvk : GroupVersionKind) → Emits Q (prune_individually env mesh_namespace gvk generation)
  unfolding prune_individually
  prune_individually-Emits gvk =
      Emits-on_result (create_label_selector env mesh_namespace generation) _ _
        (λ rs h.
          Emits-answered env (list_objects gvk rs) _
            (λ a. (os : List ObjectMeta) → a ≡ ok os → All (IsStale mesh_namespace generation) os)
            (λ log os e. IsStale-objects mesh_namespace generation os (
              subst (λ r. All (λ o. All (Meets o) r) os)
                (created_selector env mesh_namespace generation rs h)
                (selecting.selected log gvk rs os e)))
            (allows.of_list_objects gvk rs)
            (λ a known.
              Emits-on_result a _ _ (λ os e. delete_listed-Emits gvk os (known os e))
                (λ e. Emits-pure _)))
        (λ e. Emits-pure _)

  prune_each-Emits :
      (configs : List PruneConfig)
      → All IsIndividual configs
      → Emits Q (prune_each env mesh_namespace configs generation)
  unfolding prune_each IsIndividual
  prune_each-Emits [] h = Emits-pure _
  prune_each-Emits (config ∷ configs) (i, hs) =
      Emits-bind _ _
        (Emits-when config.supports_delete_collection _ _ (λ c. absurd_config env config c i)
          (λ _. prune_individually-Emits config.gvk))
        (λ e. Emits-bind _ _ (prune_each-Emits configs hs) (λ es. Emits-pure _))

  find_resources_to_prune-Emits : Emits Q (find_resources_to_prune env)
  unfolding find_resources_to_prune
  find_resources_to_prune-Emits =
      Emits-result (ask env list_crds) _ _ (Emits-ask env list_crds allows.of_list_crds)
        (λ crds. Emits-pure _) (λ e. Emits-pure _)

  pub prune-Emits : Emits Q (prune env mesh_namespace generation)
  unfolding prune prune_resources IsFound
  prune-Emits =
      Emits-known (find_resources_to_prune env) _ find_resources_to_prune-Emits
        (find_resources_to_prune-IsFound env)
        (λ r found.
          Emits-on_result r _ _
            (λ configs e.
              Emits-bind _ _ (prune_each-Emits configs (found configs e)) (λ es. Emits-pure _))
            (λ e. Emits-pure _))
