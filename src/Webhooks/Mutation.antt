-- ===== src/Webhooks/Mutation.antt =====
-- MemberRollMutator.Handle (pkg/controller/servicemesh/webhooks/mutation/memberroll.go).
use istio_operator.Prelude.{
  Bool, not, ◌||◌, ◌==◌, String, List, [], ◌∷◌, has, is_some, if◌then◌else◌,
}
use istio_operator.Prog.{Prog, pure, on_result, when}
use istio_operator.Kube.{Call, MemberRoll}
use istio_operator.Webhooks.Admission.{Request, Response, allowed, errored, patched, watching}

-- filteredMembers
unfoldable pub filtered_members : String → List String → List String
filtered_members namespace [] = []
filtered_members namespace (ns ∷ nss) =
    let rest = filtered_members namespace nss in if ns == namespace then rest else ns ∷ rest

-- rollMutated
unfoldable pub roll_mutated : String → List String → Bool
roll_mutated namespace nss = has namespace nss

module _ {E : Type 0} where
  -- Handle. PatchResponse of a library makes the patch from the old and the new object.
  unfoldable pub mutate : String → Request E MemberRoll → Prog Call (Response E)
  mutate filter request =
      on_result request.object
        (λ roll.
          when (not (watching filter roll.meta.namespace) || is_some roll.meta.deletion_timestamp)
            (pure allowed)
            (when (roll_mutated roll.meta.namespace roll.members)
              (pure (patched (filtered_members roll.meta.namespace roll.members))) (pure allowed)))
        (λ e. pure (errored 400 e))
