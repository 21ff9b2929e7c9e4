-- ===== src/Roll/Deletion.antt =====
-- The deletion of members and the finalization of a member roll
-- (pkg/controller/servicemesh/memberroll/controller.go).
use istio_operator.Prelude.{
  Bool, true, false, not, ◌≡◌, refl, List, [], ◌∷◌, Option, none, some, is_some, if◌then◌else◌,
  Bool-cases, inl, inr, ◌⊎◌, ◌++◌, ap, subst, sym,
}
use istio_operator.Prog.{◌>>=◌, on_error, when}
use istio_operator.Prog.Returns.{Returns, returns_rules}
use istio_operator.Kube.{Env, Call, call, Member, MemberRoll, delete_member}
use istio_operator.Roll.Members.{delete_members}
use istio_operator.Roll.Controller.{finalize_object}

-- The calls after the deletion of the members that pass a test, the last one first.
unfoldable pub deletions : (Member → Bool) → List Member → List Call → List Call
deletions test [] log = log
deletions test (m ∷ ms) log = deletions test ms (if test m then delete_member m ∷ log else log)

module _ {E : Type 0} (env : Env E) where
  open env use {errors, reply}

  -- The API server deletes every member that it is asked to, or says that it is gone.
  pub record Deletes : Type 0 where
    pub deleted :
        (log : List Call) (m : Member)
        → (reply log (delete_member m) ≡ none)
          ⊎ ((e : E) × (reply log (delete_member m) ≡ some e) × (errors.is_not_found e ≡ true))

  -- The answers to the deletions of the members that pass a test, one after the other: each one is
  -- deleted or is gone.
  abbrev pub AreDeleted : (Member → Bool) → List Member → List Call → Type 0
  AreDeleted test [] log = Unit
  AreDeleted test (m ∷ ms) log =
      ((test m ≡ false)
        ⊎ ((reply log (delete_member m) ≡ none)
            ⊎ ((e : E) × (reply log (delete_member m) ≡ some e) × (errors.is_not_found e ≡ true))))
      × AreDeleted test ms (if test m then delete_member m ∷ log else log)

  -- Where the loop stops: at the first member whose deletion fails with an error that does not say
  -- that it is gone. `result` is that error, wrapped, with the calls made until then.
  pub record StopsAt (test : Member → Bool) (wrap : Member → E → E) (members : List Member)
      (log : List Call) (result : Option E × List Call) : Type 0 where
    pub before : List Member
    pub failing : Member
    pub others : List Member
    pub failure : E
    pub of_members : members ≡ before ++ (failing ∷ others)
    pub of_before : AreDeleted test before log
    pub of_test : test failing ≡ true
    pub of_failure : reply (deletions test before log) (delete_member failing) ≡ some failure
    pub of_kind : errors.is_not_found failure ≡ false
    pub of_result :
        result ≡ (some (wrap failing failure), delete_member failing ∷ deletions test before log)

  module _ (test : Member → Bool) (wrap : Member → E → E) where
    -- The two ways in which the loop ends.
    abbrev pub Outcome : List Member → List Call → Option E × List Call → Type 0
    Outcome members log result =
        (AreDeleted test members log × (result ≡ (none, deletions test members log)))
        ⊎ StopsAt test wrap members log result

    -- A member that is skipped, deleted or gone, before the others.
    outcome_after :
        (m : Member) (ms : List Member) (log : List Call) (result : Option E × List Call)
        → (test m ≡ false)
          ⊎ ((reply log (delete_member m) ≡ none)
              ⊎ ((e : E) × (reply log (delete_member m) ≡ some e) × (errors.is_not_found e ≡ true)))
        → Outcome ms (if test m then delete_member m ∷ log else log) result
        → Outcome (m ∷ ms) log result
    unfolding deletions
    outcome_after m ms log result here (inl (rest, e)) = inl ((here, rest), e)
    outcome_after m ms log result here (inr stop) = inr (record {
      before = m ∷ stop.before;
      failing = stop.failing;
      others = stop.others;
      failure = stop.failure;
      of_members = ap (λ xs. m ∷ xs) stop.of_members;
      of_before = (here, stop.of_before);
      of_test = stop.of_test;
      of_failure = stop.of_failure;
      of_kind = stop.of_kind;
      of_result = stop.of_result;
    })

    -- The same, where the loop goes on with the others and the calls `later`.
    outcome_step :
        (m : Member) (ms : List Member) (log later : List Call)
        → (test m ≡ false)
          ⊎ ((reply log (delete_member m) ≡ none)
              ⊎ ((e : E) × (reply log (delete_member m) ≡ some e) × (errors.is_not_found e ≡ true)))
        → (if test m then delete_member m ∷ log else log) ≡ later
        → delete_members env test wrap (m ∷ ms) log ≡ delete_members env test wrap ms later
        → Outcome ms later (delete_members env test wrap ms later)
        → Outcome (m ∷ ms) log (delete_members env test wrap (m ∷ ms) log)
    outcome_step m ms log later here e same rest = subst (Outcome (m ∷ ms) log) (sym same) (
        outcome_after m ms log (delete_members env test wrap ms later) here
          (subst (λ l. Outcome ms l (delete_members env test wrap ms later)) (sym e) rest))

    Option-cases : (o : Option E) → (o ≡ none) ⊎ ((e : E) × (o ≡ some e))
    Option-cases none = inl refl
    Option-cases (some e) = inr (e, refl)

    -- The loop that deletes members ends in one of two ways, whatever the API server answers: either
    -- every member that passes the test was deleted or was gone, and there is no error; or the loop
    -- stopped at the first member whose deletion failed with another error, after asking for the
    -- deletion of that member and of exactly the members before it that pass the test, in the order
    -- of the list, and the error comes back wrapped.
    pub delete_members_lem :
        (members : List Member) (log : List Call)
        → Outcome members log (delete_members env test wrap members log)
    unfolding delete_members ◌>>=◌ when on_error call deletions
    delete_members_lem [] log = inl (tt, refl)
    delete_members_lem (m ∷ ms) log = elim (Bool-cases (test m)) [
      | inr other ↦
          outcome_step m ms log log (inl other) (rw other refl) (rw other refl)
            (delete_members_lem ms log)
      | inl chosen ↦ elim (Option-cases (reply log (delete_member m))) [
        | inl gone ↦
            outcome_step m ms log (delete_member m ∷ log) (inr (inl gone)) (rw chosen refl)
              (rw (chosen, gone) refl) (delete_members_lem ms (delete_member m ∷ log))
        | inr (e, failed) ↦ elim (Bool-cases (errors.is_not_found e)) [
          | inl missing ↦
              outcome_step m ms log (delete_member m ∷ log) (inr (inr (e, failed, missing)))
                (rw chosen refl) (rw (chosen, failed, missing) refl)
                (delete_members_lem ms (delete_member m ∷ log))
          | inr present ↦ inr (record {
            before = [];
            failing = m;
            others = ms;
            failure = e;
            of_members = refl;
            of_before = tt;
            of_test = chosen;
            of_failure = failed;
            of_kind = present;
            of_result = rw (chosen, failed, present) refl;
          })
        ]
      ]
    ]

  -- finalizeObject's Boolean is true exactly if its error is nil, so that it never reports an
  -- unfinished finalization without an error.
  pub finalize_object_lem :
      (roll : MemberRoll) (log : List Call)
      → let (finalized, failed) = (finalize_object env roll log).0 in
        finalized ≡ not (is_some failed)
  finalize_object_lem roll log = (finished roll).at log
    where
      finished :
          (roll : MemberRoll)
          → Returns (λ (r : Bool × Option E). r.0 ≡ not (is_some r.1)) (finalize_object env roll)
      finished roll = unfold finalize_object in search returns_rules depth 20
