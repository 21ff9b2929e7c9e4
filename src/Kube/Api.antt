-- ===== src/Kube/Api.antt =====
-- The calls that the code makes, with the answer that each has, and the rest of the environment:
-- the errors, the clock, Go's printing and sorting, and the settings of the process.
use istio_operator.Prelude.{ℕ, Bool, String, Option, List, has, ◌≡◌}
use istio_operator.Errors.{Errors}
use istio_operator.Prog.{Result, Prog, perform, observe}
use istio_operator.Kube.Objects.{
  NamespacedName, Namespace, Member, MemberRoll, ControlPlane, RoleBinding, NetworkPolicy,
  NetworkAttachment, NetNamespace, Kiali,
}

-- A SubjectAccessReview, without the user, who is the one of the request.
pub record AccessReview : Type 0 where
  pub verb : String
  pub group : String
  pub resource : String
  pub name : String
  pub namespace : String

-- The status of a SubjectAccessReview that was created.
pub record AccessStatus : Type 0 where
  pub allowed : Bool
  pub denied : Bool

pub data Call : Type 0 where
  get_member : NamespacedName → Call
  -- the members whose spec.controlPlaneRef.namespace is the given one
  list_members : String → Call
  create_member update_member delete_member patch_member_status : Member → Call
  get_roll : NamespacedName → Call
  list_rolls : Call
  create_roll update_roll delete_roll patch_roll_status : MemberRoll → Call
  get_namespace : String → Call
  list_namespaces : Call
  update_namespace : Namespace → Call
  get_control_plane : NamespacedName → Call
  list_control_planes : String → Call
  -- a namespace, a label and its value
  list_role_bindings list_network_policies list_nads : String → String → String → Call
  create_role_binding : RoleBinding → Call
  create_network_policy : NetworkPolicy → Call
  create_nad : NetworkAttachment → Call
  -- a namespace and a name
  delete_role_binding delete_network_policy delete_nad : String → String → Call
  get_network get_cluster_network : Call
  get_net_namespace : String → Call
  update_net_namespace : NetNamespace → Call
  -- wait.ExponentialBackoff, until the annotation of the NetNamespace is gone
  await_net_namespace : String → Call
  get_kiali : NamespacedName → Call
  -- a key, accessible_namespaces and the excluded namespaces
  patch_kiali : NamespacedName → List String → List String → Call
  -- EventRecorder.Event: type, reason and message
  record_event : String → String → String → Call
  review_access : AccessReview → Call

abbrev pub Reply : Type 0 → Call → Type 0
Reply E (get_member _) = Result E Member
Reply E (list_members _) = Result E (List Member)
Reply E (get_roll _) = Result E MemberRoll
Reply E list_rolls = Result E (List MemberRoll)
Reply E (get_namespace _) = Result E Namespace
Reply E list_namespaces = Result E (List Namespace)
Reply E (get_control_plane _) = Result E ControlPlane
Reply E (list_control_planes _) = Result E (List ControlPlane)
Reply E (list_role_bindings _ _ _) = Result E (List RoleBinding)
Reply E (list_network_policies _ _ _) = Result E (List NetworkPolicy)
Reply E (list_nads _ _ _) = Result E (List NetworkAttachment)
Reply E get_network = Result E String
Reply E get_cluster_network = Result E String
Reply E (get_net_namespace _) = Result E NetNamespace
Reply E (get_kiali _) = Result E Kiali
Reply E (record_event _ _ _) = Unit {0}
Reply E (review_access _) = Result E AccessStatus
Reply E _ = Option E

pub record Env (E : Type 0) : Type 0 where
  pub errors : Errors E
  -- the answer of the API server, or of its caches, after the calls made so far
  pub reply : List Call → (c : Call) → Reply E c
  pub clock : List Call → ℕ
  -- sets.String's List, which sorts
  pub sorted : List String → List String
  -- `%d` and `%v`
  pub print_int : ℕ → String
  pub print_list : List String → String
  pub to_lower : String → String
  -- regexp.Match of a pattern and a text
  pub matches_regexp : String → String → Bool
  -- common.GetOperatorNamespace()
  pub operator_namespace : String

module _ {E : Type 0} (env : Env E) where
  unfoldable pub call : (c : Call) → Prog Call (Reply E c)
  unfolding perform
  call c = perform c (λ log. env.reply log c)

  unfoldable pub now : Prog Call ℕ
  unfolding observe
  now = observe env.clock

-- What sets.String's List promises: it holds the elements of the set.
pub record IsSorting {E : Type 0} (env : Env E) : Type 0 where
  pub has-sorted : (x : String) (s : List String) → has x (env.sorted s) ≡ has x s
