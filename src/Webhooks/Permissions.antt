-- ===== src/Webhooks/Permissions.antt =====
-- What an admission by the webhooks says of the user's permissions
-- (pkg/controller/servicemesh/webhooks/validation/memberroll.go and member.go), and what
-- MemberRollMutator leaves of a roll (pkg/controller/servicemesh/webhooks/mutation/memberroll.go).
use istio_operator.Prelude.{
  Bool, true, false, not, ◌&&◌, ◌≡◌, refl, sym, ap, ◌∙◌, subst, String, List, [], ◌∷◌, ◌++◌, none,
  All, ◌==◌, eq_iff, arith, has, inl, inr, ◌⊎◌, Bool-cases, nat_eq, length, if◌then◌else◌,
}
use istio_operator.Prog.{Result, ok, err, pure, ◌>>=◌, on_result}
use istio_operator.Kube.{
  Env, Call, call, Member, MemberRoll, AccessReview, AccessStatus, review_access,
}
use istio_operator.Common.{member_name}
use istio_operator.Roll.Membership.{is_cluster_scoped}
use istio_operator.Webhooks.Admission.{Request, Response, errored, forbidden, bad_request}
use istio_operator.Webhooks.Members.{
  is_allowed, control_plane_review, same_ref, check_member, handle, check_user,
}
use istio_operator.Webhooks.MemberRolls as Rolls
use istio_operator.Webhooks.Access.{
  pod_review, find_newly_added_namespaces, rejected_namespaces,
  is_user_allowed_to_update_pods_in_namespace, is_user_allowed_to_update_pods_in_all_namespaces,
}
use istio_operator.Webhooks.Mutation.{filtered_members}
use istio_operator.Webhooks.Guards.{
  Admits, Refuses, passed_when, passed_result, not_skipped, found_result, passed_unless, taken,
  granted,
}

append_one :
    {A : Type 0} (cs : List A) (c : A) (log : List A) → (cs ++ c ∷ []) ++ log ≡ cs ++ c ∷ log
append_one [] c log = refl
append_one (x ∷ cs) c log = ap (λ l. x ∷ l) (append_one cs c log)

Result-cases : {E A : Type 0} (r : Result E A) → ((a : A) × (r ≡ ok a)) ⊎ ((e : E) × (r ≡ err e))
Result-cases (ok a) = inl (a, refl)
Result-cases (err e) = inr (e, refl)

either-Refuses :
    {E : Type 0} (b : Bool) (r s : Response E)
    → Refuses r
    → Refuses s
    → Refuses (if b then r else s)
either-Refuses true r s h k = h
either-Refuses false r s h k = k

empty_list : (l : List String) → nat_eq (length l) 0 ≡ true → l ≡ []
empty_list [] h = refl
empty_list (x ∷ xs) h = absurd (ground arith)

value : {E : Type 0} → Result E (List String) → List String
value (ok found) = found
value (err e) = []

none_rejected :
    (b : Bool) (ns : String) (found : List String)
    → (if b then found else ns ∷ found) ≡ []
    → (b ≡ true) × (found ≡ [])
none_rejected true ns found h = (refl, h)
none_rejected false ns found h = cc h

both_true : (a b : Bool) → (a && b) ≡ true → (a ≡ true) × (b ≡ true)
both_true true true h = (refl, refl)
both_true true false h = cc h
both_true false b h = cc h

-- MemberRollMutator leaves exactly the members other than the roll's own namespace.
pub has-filtered_members :
    (namespace ns : String) (members : List String)
    → has ns (filtered_members namespace members) ≡ (not (namespace == ns) && has ns members)
unfolding filtered_members has
has-filtered_members namespace ns [] = ground arith
has-filtered_members namespace ns (m ∷ ms) = ground (
  arith,
  eq_iff m namespace,
  eq_iff m ns,
  eq_iff namespace ns,
  has-filtered_members namespace ns ms,
)

module _ {E : Type 0} (env : Env E) where
  open env use {reply, operator_namespace}

  -- After the calls `log` and some further calls, the API server has answered that access is allowed.
  abbrev pub IsReviewed : AccessReview → List Call → Type 0
  IsReviewed review log =
      (cs : List Call) × (status : AccessStatus) × (reply (cs ++ log) (review_access review)
        ≡ ok status)
      × (is_allowed status ≡ true)

  IsReviewed-later :
      (review : AccessReview) (c : Call) (log : List Call)
      → IsReviewed review (c ∷ log)
      → IsReviewed review log
  IsReviewed-later review c log (cs, status, answer, granted) = (
    cs ++ c ∷ [],
    status,
    subst (λ l. reply l (review_access review) ≡ ok status) (sym (append_one cs c log)) answer,
    granted,
  )

  All-later :
      (c : Call) (log : List Call) (nss : List String)
      → All (λ ns. IsReviewed (pod_review ns) (c ∷ log)) nss
      → All (λ ns. IsReviewed (pod_review ns) log) nss
  All-later c log [] h = tt
  All-later c log (ns ∷ nss) (here, rest) =
      (IsReviewed-later (pod_review ns) c log here, All-later c log nss rest)

  -- No namespace is rejected: the first is reviewed, and so are the others.
  first-IsReviewed :
      (ns : String) (nss : List String) (log : List Call)
      → (rejected_namespaces env (ns ∷ nss) log).0 ≡ ok []
      → IsReviewed (pod_review ns) log
        × ((rejected_namespaces env nss (review_access (pod_review ns) ∷ log)).0 ≡ ok [])
  unfolding rejected_namespaces is_user_allowed_to_update_pods_in_namespace call ◌>>=◌ on_result
      pure is_allowed value
  first-IsReviewed ns nss log h =
      let later = review_access (pod_review ns) ∷ log in
      elim (Result-cases (reply log (review_access (pod_review ns)))) [
        | inr (e, failed) ↦ cc (rw failed at h)
        | inl (status, answer) ↦
            let h' = rw answer at h in
            elim (Result-cases (rejected_namespaces env nss later).0) [
              | inr (e, failed) ↦ cc (rw failed at h')
              | inl (found, result) ↦
                  let h'' = rw result at h' in
                  let (yes_here, empty) =
                    none_rejected (is_allowed status) ns found (ap value h'') in
                  (([], status, answer, yes_here), result ∙ ap (λ l. ok l) empty)
            ]
      ]

  rejected_namespaces_none :
      (nss : List String) (log : List Call)
      → (rejected_namespaces env nss log).0 ≡ ok []
      → All (λ ns. IsReviewed (pod_review ns) log) nss
  rejected_namespaces_none [] log h = tt
  rejected_namespaces_none (ns ∷ nss) log h =
      let (here, rest) = first-IsReviewed ns nss log h in
      (
        here,
        All-later (review_access (pod_review ns)) log nss
            (rejected_namespaces_none nss (review_access (pod_review ns) ∷ log) rest),
      )

  -- MemberRollValidator's checks of the user admit a roll only if the API server has allowed the user
  -- to update pods in all namespaces, or if the roll is not cluster-scoped, the added namespaces
  -- could be told, and the API server has allowed the user to update pods in each of them, in the
  -- order in which the results arrived.
  pub check_user-Admits :
      (late : E → Bool) (arrival : List String → List String) (request : Request E MemberRoll)
      (smmr : MemberRoll) (log : List Call)
      → Admits (Rolls.check_user env late arrival request smmr) log
      → IsReviewed (pod_review "") log
        ⊎ ((is_cluster_scoped smmr.members ≡ false)
            × ((added : List String) × (find_newly_added_namespaces smmr request ≡ ok added)
                × All
                    (λ ns. IsReviewed (pod_review ns) (review_access (pod_review "") ∷ log))
                    (arrival added)))
  unfolding Rolls.check_user is_user_allowed_to_update_pods_in_all_namespaces
      is_user_allowed_to_update_pods_in_namespace call ◌>>=◌ pure forbidden on_result
  check_user-Admits late arrival request smmr log admits =
      let log1 = review_access (pod_review "") ∷ log in
      elim (Result-cases (reply log (review_access (pod_review "")))) [
        | inr (e, failed) ↦ cc (rw failed at admits)
        | inl (status, answer) ↦
            let h1 = rw answer at admits in
            elim (Bool-cases (is_allowed status)) [
              | inl everywhere ↦ inl ([], status, answer, everywhere)
              | inr elsewhere ↦
                  let h2 = not_skipped _ _ _ log1 elsewhere h1 in
                  let (single, h3) = passed_when _ _ _ log1 tt h2 in
                  let (added, told, h4) = passed_result _ _ (errored 400) log1 (λ e. tt) h3 in
                  let nss = arrival added in
                  let (found, result, h5) =
                    passed_result (rejected_namespaces env nss log1).0 _ _
                      (rejected_namespaces env nss log1).1 (λ e. either-Refuses (late e) _ _ tt tt)
                      h4 in
                  let (none_found, h6) =
                    passed_unless _ _ _ (rejected_namespaces env nss log1).1 tt h5 in
                  let all : (rejected_namespaces env nss log1).0 ≡ ok [] =
                    result ∙ ap (λ l. ok l) (empty_list found none_found) in
                  inr (single, (added, told, rejected_namespaces_none nss log1 all))
            ]
      ]

  -- A member that is updated and is not being deleted is admitted only if its reference to a control
  -- plane is what it was, and the API server has allowed the user to use that control plane.
  pub update-Admits :
      (request : Request E Member) (smm old : Member) (log : List Call)
      → request.object ≡ ok smm
      → request.is_update ≡ true
      → request.old_object ≡ ok old
      → smm.meta.deletion_timestamp ≡ none
      → Admits (handle env request) log
      → (smm.meta.name ≡ member_name)
        × (smm.control_plane_ref.name ≡ old.control_plane_ref.name)
        × (smm.control_plane_ref.namespace ≡ old.control_plane_ref.namespace)
        × IsReviewed (control_plane_review smm.control_plane_ref) log
  unfolding handle check_member check_user bad_request same_ref call ◌>>=◌ pure
  update-Admits request smm old log decoded updating decoded_old kept admits =
      let h1 = found_result _ _ _ log smm decoded admits in
      let h2 = not_skipped _ _ _ log (rw kept refl) h1 in
      let (named, h3) = passed_when _ _ _ log tt h2 in
      let (elsewhere, h4) = passed_when _ _ _ log tt h3 in
      let h5 = taken _ _ _ log updating h4 in
      let h6 = found_result _ _ _ log old decoded_old h5 in
      let (kept_ref, h7) = passed_unless _ _ _ log tt h6 in
      let review = control_plane_review smm.control_plane_ref in
      let (status, answer, h8) =
        passed_result _ _ (errored 500) (review_access review ∷ log) (λ e. tt) h7 in
      let names = both_true _ _ kept_ref in
      (
        (eq_iff smm.meta.name member_name).0 (ground arith),
        (eq_iff smm.control_plane_ref.name old.control_plane_ref.name).0 names.0,
        (eq_iff smm.control_plane_ref.namespace old.control_plane_ref.namespace).0 names.1,
        ([], status, answer, granted (is_allowed status) _ tt h8),
      )
