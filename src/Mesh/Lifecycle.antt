-- ===== src/Mesh/Lifecycle.antt =====
-- The Installed and Reconciled conditions of a control plane or a component as an abstract state
-- machine, which updateConditions, initializeReconcileStatus and SetInstance implement.
use istio_operator.Prelude.{
  ℕ, ◌≡◌, refl, Bool, true, false, not, String, List, Option, none, some, ap, ◌∙◌, is_some,
  if◌then◌else◌, ◌==◌, arith, eq_iff,
}
use istio_operator.Prog.{pure, when}
use istio_operator.Prog.Returns.{Returns, Returns-pure, Returns-bind, Returns-when}
use istio_operator.Prog.Answered.{Returns-known}
use istio_operator.Status.{Condition, get_condition, set_condition}
use istio_operator.Status.Conditions.{status-set_condition, get-set_condition_ne}
use istio_operator.Mesh.Objects.{Mesh, MeshStatus}
use istio_operator.Mesh.Calls.{MeshEnv}
use istio_operator.Mesh.Conditions.{condition, with_condition, update_conditions}
use istio_operator.Mesh.Posting.{initialize_reconcile_status, is_updating}
use istio_operator.Mesh.Ready.{Returns-with_condition}

-- The abstract state: what the two conditions say.
pub record Phase : Type 0 where
  pub installed : String
  pub reconciled : String

abbrev pub phase_of : List Condition → Phase
phase_of cs = record {
  installed = (get_condition "Installed" cs).status;
  reconciled = (get_condition "Reconciled" cs).status;
}

-- The abstract steps: the end of a reconciliation, with an error or not, and the begin of one, of a
-- mesh that was installed before or not.
pub data Event : Type 0 where
  ended begun : Bool → Event

abbrev pub next : Event → Phase → Phase
next (ended false) p = record { installed = "True"; reconciled = "True" }
next (ended true) p = record {
  installed = if p.installed == "Unknown" then "False" else p.installed;
  reconciled = "False";
}
next (begun true) p = record p { reconciled = "False" }
next (begun false) p = record { installed = "False"; reconciled = "False" }

same_phase :
    {a b c d : String}
    → a ≡ b
    → c ≡ d
    → (let p : Phase = record { installed = a; reconciled = c } in p)
      ≡ record { installed = b; reconciled = d }
same_phase {b = b} {c = c} e f =
    ap (λ (x : String). (let p : Phase = record { installed = x; reconciled = c } in p)) e
    ∙ ap (λ (x : String). (let p : Phase = record { installed = b; reconciled = x } in p)) f

-- Setting one of the two conditions, in the abstract.
set_installed :
    (t : ℕ) (v reason message : String) (cs : List Condition)
    → phase_of (set_condition t (condition "Installed" v reason message) cs)
      ≡ record { installed = v; reconciled = (get_condition "Reconciled" cs).status }
unfolding condition
set_installed t v reason message cs =
    let c : Condition = condition "Installed" v reason message in
    same_phase (status-set_condition t c cs)
      (ap (λ (x : Condition). x.status) (get-set_condition_ne t c cs "Reconciled" refl))

set_reconciled :
    (t : ℕ) (v reason message : String) (cs : List Condition)
    → phase_of (set_condition t (condition "Reconciled" v reason message) cs)
      ≡ record { installed = (get_condition "Installed" cs).status; reconciled = v }
unfolding condition
set_reconciled t v reason message cs =
    let c : Condition = condition "Reconciled" v reason message in
    same_phase (ap (λ (x : Condition). x.status) (get-set_condition_ne t c cs "Installed" refl))
      (status-set_condition t c cs)

both :
    (t u : ℕ) (v reason message : String) (cs : List Condition)
    → phase_of (
        set_condition u
          (condition "Reconciled" v reason message)
          (set_condition t (condition "Installed" v reason message) cs))
      ≡ record { installed = v; reconciled = v }
both t u v reason message cs =
    let cs' : List Condition = set_condition t (condition "Installed" v reason message) cs in
    set_reconciled u v reason message cs'
    ∙ same_phase (ap (λ (p : Phase). p.installed) (set_installed t v reason message cs)) refl

module _ {E : Type 0} (env : MeshEnv E) where
  update_conditions_lem :
      (cs : List Condition) (e : Option E) (message : String)
      → Returns
          (λ updated. phase_of updated ≡ next (ended (is_some e)) (phase_of cs))
          (update_conditions env cs e message)
  unfolding update_conditions
  update_conditions_lem cs none message =
      Returns-when _ _ _
        (λ _.
          Returns-bind _ _ (λ t. Returns-bind _ _ (λ u. Returns-pure _ (both t u "True" _ _ cs))))
        (λ e.
          Returns-bind _ _
            (λ t. Returns-pure _ (set_reconciled t "True" _ _ cs ∙ same_phase (was _ e) refl)))
    where
      was : (s : String) → not (s == "True") ≡ false → s ≡ "True"
      was s e = ground (arith, eq_iff s "True")
  update_conditions_lem cs (some e) message =
      Returns-when _ _ _
        (λ h. Returns-bind _ _ (λ t.
          Returns-bind _ _
            (λ u. Returns-pure _ (both t u "False" _ _ cs ∙ same_phase (rw h) refl))))
        (λ h.
          Returns-bind _ _
            (λ t. Returns-pure _ (set_reconciled t "False" _ _ cs ∙ same_phase (rw h) refl)))

  -- The first condition that initializeReconcileStatus sets, or not.
  IsBegun : Bool → List Condition → MeshStatus → Type 0
  IsBegun updating cs installing =
      (get_condition "Installed" installing.conditions).status
      ≡ (if updating then (get_condition "Installed" cs).status else "False")

  ready_phase :
      (t : ℕ) (v reason message : String) (cs : List Condition)
      → phase_of (set_condition t (condition "Ready" v reason message) cs) ≡ phase_of cs
  unfolding condition
  ready_phase t v reason message cs =
      let c : Condition = condition "Ready" v reason message in
      same_phase (ap (λ (x : Condition). x.status) (get-set_condition_ne t c cs "Installed" refl))
        (ap (λ (x : Condition). x.status) (get-set_condition_ne t c cs "Reconciled" refl))

  begun_phase :
      (updating : Bool) (cs : List Condition) (a : String)
      → a ≡ (if updating then (get_condition "Installed" cs).status else "False")
      → (let p : Phase = record { installed = a; reconciled = "False" } in p)
        ≡ next (begun updating) (phase_of cs)
  begun_phase true cs a e = same_phase e refl
  begun_phase false cs a e = same_phase e refl

  begin_runs :
      (mesh : Mesh) (s : MeshStatus) (updating : Bool) (reason message : String)
      → Returns (IsBegun updating s.conditions) (
          when updating
            (pure s)
            (with_condition env (condition "Installed" "False" reason message) s))
  unfolding when with_condition IsBegun condition
  begin_runs mesh s true reason message = Returns-pure _ refl
  begin_runs mesh s false reason message = Returns-bind _ _ (λ t.
      Returns-pure _
        (status-set_condition t (condition "Installed" "False" reason message) s.conditions))

  initialize_lem :
      (mesh : Mesh) (s : MeshStatus)
      → Returns
          (λ begun_status.
            phase_of begun_status.conditions
            ≡ next (begun (is_updating env mesh)) (phase_of s.conditions))
          (initialize_reconcile_status env mesh s)
  unfolding initialize_reconcile_status IsBegun with_condition
  initialize_lem mesh s =
      Returns-known _ _ (begin_runs mesh s (is_updating env mesh) _ _) (λ installing h.
        Returns-bind _ _ (λ _. Returns-with_condition env _ installing _ (λ t.
          Returns-bind _ _ (λ u. Returns-pure _ (
            ready_phase u "False" _ _ _
            ∙ set_reconciled t "False" _ _ installing.conditions
            ∙ begun_phase (is_updating env mesh) s.conditions _ h)))))

  -- The code implements the abstract steps on the Installed and Reconciled conditions, whatever the
  -- time and the messages are. updateConditions ends a reconciliation: without an error both become
  -- True; with one Reconciled becomes False, and Installed becomes False if it was Unknown and stays
  -- else. initializeReconcileStatus begins one: Reconciled becomes False, and Installed too unless
  -- the mesh is being updated.
  pub lifecycle_lem :
      (cs : List Condition) (e : Option E) (message : String) (mesh : Mesh) (s : MeshStatus)
      → Returns
          (λ updated. phase_of updated ≡ next (ended (is_some e)) (phase_of cs))
          (update_conditions env cs e message)
        × Returns
            (λ begun_status.
              phase_of begun_status.conditions
              ≡ next (begun (is_updating env mesh)) (phase_of s.conditions))
            (initialize_reconcile_status env mesh s)
  lifecycle_lem cs e message mesh s = (update_conditions_lem cs e message, initialize_lem mesh s)
