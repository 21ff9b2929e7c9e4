-- ===== src/Webhooks/Access.antt =====
-- The access checks of MemberRollValidator
-- (pkg/controller/servicemesh/webhooks/validation/memberroll.go). Up to five workers review the
-- namespaces concurrently. What they find depends on the order in which their results arrive, so
-- that order is a parameter; after a first error no other result is read.
use istio_operator.Prelude.{Bool, String, List, [], ◌∷◌, new_set, set_delete, if◌then◌else◌}
use istio_operator.Prog.{Prog, Result, ok, err, pure, ◌>>=◌, on_result}
use istio_operator.Kube.{Env, Call, call, MemberRoll, AccessReview, review_access}
use istio_operator.Webhooks.Admission.{Request}
use istio_operator.Webhooks.Members.{is_allowed}

-- s.Delete(ks...)
unfoldable pub set_delete_all : List String → List String → List String
set_delete_all [] s = s
set_delete_all (k ∷ ks) s = set_delete_all ks (set_delete k s)

-- The review of the user's access to the pods of a namespace; "" stands for all of them.
unfoldable pub pod_review : String → AccessReview
pod_review ns = record { verb = "update"; group = ""; resource = "pods"; name = ""; namespace = ns }

without : {E : Type 0} → List String → Result E MemberRoll → Result E (List String)
without s (ok old) = ok (set_delete_all old.members s)
without s (err e) = err e

-- findNewlyAddedNamespaces
unfoldable pub find_newly_added_namespaces :
    {E : Type 0} → MemberRoll → Request E MemberRoll → Result E (List String)
unfolding without
find_newly_added_namespaces smmr request =
    if request.is_update
    then without (new_set smmr.members) request.old_object
    else ok (new_set smmr.members)

module _ {E : Type 0} (env : Env E) where
  -- isUserAllowedToUpdatePodsInNamespace
  unfoldable pub is_user_allowed_to_update_pods_in_namespace : String → Prog Call (Result E Bool)
  is_user_allowed_to_update_pods_in_namespace ns = do
    reviewed ← call env (review_access (pod_review ns))
    on_result reviewed (λ status. pure (ok (is_allowed status))) (λ e. pure (err e))

  -- isUserAllowedToUpdatePodsInAllNamespaces
  unfoldable pub is_user_allowed_to_update_pods_in_all_namespaces : Prog Call (Result E Bool)
  is_user_allowed_to_update_pods_in_all_namespaces = is_user_allowed_to_update_pods_in_namespace ""

  -- isUserAllowedToUpdatePodsInNamespaces: the rejected namespaces, in the order of the results
  unfoldable pub rejected_namespaces : List String → Prog Call (Result E (List String))
  rejected_namespaces [] = pure (ok [])
  rejected_namespaces (ns ∷ nss) =
      let rest = rejected_namespaces nss in
      do
        checked ← is_user_allowed_to_update_pods_in_namespace ns
        on_result checked
            (λ permitted. do
              others ← rest
              on_result others (λ found. pure (ok (if permitted then found else ns ∷ found)))
                  (λ e. pure (err e)))
            (λ e. pure (err e))
