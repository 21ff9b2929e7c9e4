-- ===== src/Roll/Kiali.antt =====
-- defaultKialiReconciler.reconcileKiali (pkg/controller/servicemesh/memberroll/controller.go), and
-- what decides whether it is called (pkg/apis/maistra/v2/kiali.go, servicemeshcontrolplane_types.go).
use istio_operator.Prelude.{
  Bool, true, false, ◌&&◌, ◌||◌, String, List, [], ◌∷◌, Option, none, some, has, ◌==◌,
  if◌then◌else◌, concat, new_set,
}
use istio_operator.Prog.{Prog, pure, ◌>>=◌, on_result, on_error, when}
use istio_operator.Kube.{
  NamespacedName, ControlPlane, Addons, KialiAddon, Env, Call, call, get_kiali, patch_kiali,
}

-- s.IsSuperset(t)
unfoldable pub contains_all : List String → List String → Bool
contains_all s [] = true
contains_all s (x ∷ xs) = has x s && contains_all s xs

-- s.Equal(t); the library compares sizes and one inclusion, which is the same for sets
unfoldable pub set_equal : List String → List String → Bool
unfolding contains_all
set_equal s t = contains_all s t && contains_all t s

-- Whether a slice of the Kiali resource was found and holds the wanted namespaces.
unfoldable pub is_up_to_date : List String → Option (List String) → Bool
unfolding set_equal
is_up_to_date wanted none = false
is_up_to_date wanted (some found) = set_equal (new_set wanted) (new_set found)

kiali_addon : Option Addons → Option KialiAddon
kiali_addon none = none
kiali_addon (some a) = a.kiali

enabled_addon : Option KialiAddon → Option Bool
enabled_addon none = none
enabled_addon (some k) = k.enabled

is_true : Option Bool → Bool
is_true none = false
is_true (some b) = b

-- IsKialiEnabled of the applied spec
unfoldable pub is_kiali_enabled : ControlPlane → Bool
unfolding kiali_addon enabled_addon is_true
is_kiali_enabled mesh = is_true (enabled_addon (kiali_addon mesh.applied_addons))

addon_name : Option KialiAddon → String
addon_name none = "kiali"
addon_name (some k) = if k.name == "" then "kiali" else k.name

-- ResourceName; the code asks for it only where Kiali is enabled, so that the addon is there
unfoldable pub kiali_resource_name : ControlPlane → String
unfolding kiali_addon addon_name
kiali_resource_name mesh = addon_name (kiali_addon mesh.applied_addons)

module _ {E : Type 0} (env : Env E) where
  open env use {errors, sorted}

  -- An error of a Kiali resource that is not there is none.
  unless_missing : E → String → Option E
  unless_missing e message =
      if errors.is_no_match e || errors.is_not_found e then none else some (errors.wrap message e)

  -- reconcileKiali. Setting two fields of a new object cannot fail.
  unfoldable pub reconcile_kiali :
      String → String → List String → List String → Prog Call (Option E)
  unfolding unless_missing
  reconcile_kiali name namespace accessible excluded = do
    let key : NamespacedName = record { namespace = namespace; name = name }
    got ← call env (get_kiali key)
    on_result got
        (λ kiali.
          when
            (is_up_to_date accessible kiali.accessible_namespaces
              && is_up_to_date excluded kiali.excluded_namespaces)
            (pure none)
            (do
              e ←
                  call env
                    (patch_kiali key (sorted (new_set accessible)) (sorted (new_set excluded)))
              on_error e
                  (λ x. pure (
                    unless_missing x (
                      concat (
                        "cannot update Kiali CR " ∷ namespace ∷ "/" ∷ name
                        ∷ " with new accessible namespaces" ∷ []))))
                  (pure none)))
        (λ e. pure (unless_missing e "error retrieving Kiali CR from mesh"))
