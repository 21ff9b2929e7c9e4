-- ===== src/Mesh/Ready.antt =====
-- The Ready condition that updateReadinessStatus leaves.
use istio_operator.Prelude.{
  ℕ, ◌≡◌, refl, Bool, true, false, String, List, [], ◌∷◌, Option, none, some, arith, ◌==◌, eq_iff,
  ap, sym, ◌∙◌, Bool-cases, inl, inr,
}
use istio_operator.Prog.{Prog, pure, observe, ◌>>=◌}
use istio_operator.Prog.Returns.{
  Returns, Returns-pure, Returns-bind, Returns-when, Returns-on_result,
}
use istio_operator.Prog.Answered.{Returns-known}
use istio_operator.Status.{Condition, matches, get_condition, set_condition}
use istio_operator.Status.Conditions.{status-set_condition, get-set_condition_ne}
use istio_operator.Mesh.Objects.{Mesh, MeshStatus, ReadinessMap}
use istio_operator.Mesh.Calls.{MeshEnv, MeshCall, mesh_now}
use istio_operator.Mesh.Conditions.{
  Goal, condition, with_condition, ready_goal, components_goal, apply_goal, note_count,
  note_readiness, same_texts, same_readiness, readiness_map, update_readiness_status,
}

same_texts_lem : (xs ys : List String) → same_texts xs ys ≡ true → xs ≡ ys
unfolding same_texts
same_texts_lem [] [] h = refl
same_texts_lem [] (y ∷ ys) h = cc
same_texts_lem (x ∷ xs) [] h = cc
same_texts_lem (x ∷ xs) (y ∷ ys) h = ground (arith, eq_iff x y, same_texts_lem xs ys)

-- The readiness map is there, and lists these components as not ready.
abbrev pub NoneUnready : List String → Option ReadinessMap → Type 0
NoneUnready names none = ⊥
NoneUnready names (some m) = m.unready ≡ names

same_readiness_lem :
    (q : Option ReadinessMap) (r : ReadinessMap)
    → same_readiness q r ≡ true
    → NoneUnready r.unready q
unfolding same_readiness
same_readiness_lem none r h = cc
same_readiness_lem (some q) r h = ground (arith, same_texts_lem q.unready r.unready)

module _ {E A : Type 0} (env : MeshEnv E) {P : A → Type 0} where
  -- SetCondition, whatever the time is.
  pub Returns-with_condition :
      (c : Condition) (s : MeshStatus) (f : MeshStatus → Prog MeshCall A)
      → ((t : ℕ) → Returns P (f (record s { conditions = set_condition t c s.conditions })))
      → Returns P (with_condition env c s >>= f)
  unfolding with_condition mesh_now observe pure ◌>>=◌
  Returns-with_condition c s f h = record { at = λ log. (h (env.clock log)).at log }

module _ {E : Type 0} (env : MeshEnv E) where
  -- A status that says Ready only if it says Reconciled, and its readiness map has no component that
  -- is not ready.
  pub record IsSound (s : MeshStatus) : Type 0 where
    pub reconciled :
        (get_condition "Ready" s.conditions).status ≡ "True"
        → (get_condition "Reconciled" s.conditions).status ≡ "True"
    pub all_ready :
        (get_condition "Ready" s.conditions).status ≡ "True"
        → NoneUnready (env.sorted []) s.readiness

  -- What the first part of updateReadinessStatus leaves
  record HasGoal (goal : Goal) (s : MeshStatus) (result : MeshStatus × Bool) : Type 0 where
    at_ready : (get_condition "Ready" result.0.conditions).status ≡ goal.status
    at_reconciled :
        get_condition "Reconciled" result.0.conditions ≡ get_condition "Reconciled" s.conditions

  apply_goal-HasGoal :
      (goal : Goal) (s : MeshStatus) → Returns (HasGoal goal s) (apply_goal env goal s)
  unfolding apply_goal condition matches
  apply_goal-HasGoal goal s =
      Returns-when _ _ _
        (λ m. Returns-pure _ (record {
          at_ready = ground (arith, eq_iff (get_condition "Ready" s.conditions).status goal.status);
          at_reconciled = refl;
        }))
        (λ _. Returns-with_condition env _ s _ (λ t. Returns-bind _ _ (λ _. Returns-pure _ (record {
          at_ready =
              status-set_condition t (condition "Ready" goal.status goal.reason goal.message)
                s.conditions;
          at_reconciled =
              get-set_condition_ne t (condition "Ready" goal.status goal.reason goal.message)
                s.conditions "Reconciled" refl;
        }))))

  -- The other two parts leave the conditions alone.
  noted_lem :
      (ready unready : List String) (result : MeshStatus × Bool)
      → (note_readiness env ready unready (note_count env ready result)).0.conditions
        ≡ result.0.conditions
  unfolding note_readiness note_count
  noted_lem ready unready (s, b) = ground arith

  noted_readiness :
      (ready : List String) (result : MeshStatus × Bool)
      → NoneUnready (env.sorted []) (note_readiness env ready [] result).0.readiness
  unfolding note_readiness
  noted_readiness ready (s, b) =
      let r = readiness_map env ready [] s in
      elim (Bool-cases (same_readiness s.readiness r)) [
        | inl e ↦ rw e (same_readiness_lem s.readiness r e)
        | inr e ↦ rw e refl
      ]

  reconciled_goal :
      (c : Condition) (unready : List String)
      → (c.status == "True") ≡ true
      → (ready_goal env c unready).status ≡ (components_goal env unready).status
  unfolding ready_goal
  reconciled_goal c unready e = rw e

  other_goal :
      (c : Condition) (unready : List String)
      → (c.status == "True") ≡ false
      → (ready_goal env c unready).status ≡ c.status
  unfolding ready_goal
  other_goal c unready e = rw e

  components_true :
      (unready : List String) → (components_goal env unready).status ≡ "True" → unready ≡ []
  unfolding components_goal
  components_true [] h = refl
  components_true (c ∷ cs) h = cc

  goal_true :
      (c : Condition) (unready : List String)
      → (ready_goal env c unready).status ≡ "True"
      → (c.status ≡ "True") × (unready ≡ [])
  goal_true c unready h = elim (Bool-cases (c.status == "True")) [
    | inl e ↦ (
      (eq_iff c.status "True").0 e,
      components_true unready (sym (reconciled_goal c unready e) ∙ h),
    )
    | inr e ↦ not_reconciled e ((eq_iff c.status "True").1 (sym (other_goal c unready e) ∙ h))
  ]
    where
      not_reconciled : {A : Type 0} {b : Bool} → b ≡ false → b ≡ true → A
      not_reconciled e f = cc

  noted_unready :
      (ready unready : List String) (result : MeshStatus × Bool)
      → unready ≡ []
      → NoneUnready (env.sorted []) (note_readiness env ready unready result).0.readiness
  noted_unready ready unready result e = rw e (noted_readiness ready result)

  sound :
      (ready unready : List String) (s : MeshStatus) (applied : MeshStatus × Bool)
      → HasGoal (ready_goal env (get_condition "Reconciled" s.conditions) unready) s applied
      → IsSound (note_readiness env ready unready (note_count env ready applied)).0
  sound ready unready s applied h =
      let is_goal : (get_condition "Ready"
              (note_readiness env ready unready (note_count env ready applied)).0.conditions).status
            ≡ "True"
          → ((get_condition "Reconciled" s.conditions).status ≡ "True") × (unready ≡ []) =
        λ e. goal_true _ unready (
          sym h.at_ready
          ∙ sym (ap (λ cs. (get_condition "Ready" cs).status) (noted_lem ready unready applied))
          ∙ e) in
      record {
        reconciled = λ e.
            ap (λ cs. (get_condition "Reconciled" cs).status) (noted_lem ready unready applied)
            ∙ ap (λ c. c.status) h.at_reconciled
            ∙ (is_goal e).0;
        all_ready = λ e. noted_unready ready unready (note_count env ready applied) (is_goal e).1;
      }

  unknown_lem :
      (t : ℕ) (message : String) (s : MeshStatus)
      → IsSound (record s {
        conditions =
            set_condition t (condition "Ready" "Unknown" "ProbeError" message) s.conditions;
      })
  unfolding condition
  unknown_lem t message s =
      let known =
        status-set_condition t (condition "Ready" "Unknown" "ProbeError" message) s.conditions in
      record { reconciled = λ e. not_true known e; all_ready = λ e. not_true known e }
    where
      not_true : {A : Type 0} {c : String} → c ≡ "Unknown" → c ≡ "True" → A
      not_true e f = cc

  -- A status that is not ready is sound.
  pub not_ready-IsSound :
      (s : MeshStatus) → (get_condition "Ready" s.conditions).status ≡ "False" → IsSound s
  not_ready-IsSound s known = record {
    reconciled = λ e. not_true known e;
    all_ready = λ e. not_true known e;
  }
    where
      not_true : {A : Type 0} {c : String} → c ≡ "False" → c ≡ "True" → A
      not_true e f = cc

  -- What updateReadinessStatus returns is sound, on every branch and whatever the cluster answers: if
  -- its Ready condition is True then so is its Reconciled condition, and its readiness map is there
  -- and lists no component that is not ready.
  pub update_readiness_status-IsSound :
      (mesh : Mesh) (s : MeshStatus)
      → Returns (λ result. IsSound result.0) (update_readiness_status env mesh s)
  unfolding update_readiness_status condition
  update_readiness_status-IsSound mesh s = Returns-bind _ _ (λ r.
      Returns-on_result r _ _
        (λ (ready, unready) _.
          let goal : Goal = ready_goal env (get_condition "Reconciled" s.conditions) unready in
          Returns-known _ _ (apply_goal-HasGoal goal s)
            (λ applied h. Returns-pure _ (sound ready unready s applied h)))
        (λ e _.
          Returns-with_condition env _ s _
            (λ t. Returns-bind _ _ (λ _. Returns-pure _ (unknown_lem t _ s)))))
