-- ===== src/Mesh/Reported.antt =====
-- Which components calculateComponentReadiness reports, as a function of the workloads of the mesh.
use istio_operator.Prelude.{
  ℕ, suc, ◌≤◌, ◌≡◌, refl, Bool, true, false, not, ◌&&◌, ◌||◌, String, List, [], ◌∷◌, ◌++◌, Option,
  none, some, Map, lookup, lookup-insert, has-set_insert, insert, has, arith, ◌==◌, eq_iff,
  if◌then◌else◌, ap, ◌∙◌, nat_eq,
}
use istio_operator.Kube.{ObjectMeta}
use istio_operator.Common.{get_label}
use istio_operator.Mesh.Labelling.{kubernetes_app_component_key}
use istio_operator.Mesh.Readiness.{note_ready, note_item, note_items, note_always, ready_names}

-- What a workload says: the component of its label, and whether it is ready.
pub record Workload : Type 0 where
  pub component : Option String
  pub ready : Bool

-- Whether a component has a workload, and whether all of its workloads are ready.
abbrev pub is_of : String → Option String → Bool
is_of c none = false
is_of c (some d) = d == c

unfoldable pub has_workload : String → List Workload → Bool
has_workload c [] = false
has_workload c (w ∷ ws) = is_of c w.component || has_workload c ws

unfoldable pub all_ready : String → List Workload → Bool
all_ready c [] = true
all_ready c (w ∷ ws) = (not (is_of c w.component) || w.ready) && all_ready c ws

-- What the readiness map holds for a component after the workloads, if it held `o` before.
unfoldable pub noted : String → List Workload → Option Bool → Option Bool
noted c [] o = o
noted c (w ∷ ws) o = noted c ws (if is_of c w.component then some (note_ready w.ready o) else o)

module _ {A : Type 0} (meta_of : A → ObjectMeta) (is_ready : A → Bool) where
  unfoldable pub view : List A → List Workload
  view [] = []
  view (a ∷ items) =
      record { component = get_label (meta_of a) kubernetes_app_component_key; ready = is_ready a }
      ∷ view items

  item_lem :
      (a : A) (label : Option String) (c : String) (m : Map Bool)
      → get_label (meta_of a) kubernetes_app_component_key ≡ label
      → lookup c (note_item meta_of is_ready a m)
        ≡ (if is_of c label then some (note_ready (is_ready a) (lookup c m)) else lookup c m)
  unfolding note_item
  item_lem a none c m h = rw (note_item, h)
  item_lem a (some d) c m h =
      rw (note_item, h)
        (ground (arith, lookup-insert d c (note_ready (is_ready a) (lookup d m)) m, eq_iff d c))

  pub lookup-note_items :
      (c : String) (items : List A) (m : Map Bool)
      → lookup c (note_items meta_of is_ready items m) ≡ noted c (view items) (lookup c m)
  unfolding note_items noted view
  lookup-note_items c [] m = refl
  lookup-note_items c (a ∷ items) m =
      lookup-note_items c items (note_item meta_of is_ready a m)
      ∙ ap (noted c (view items))
          (item_lem a (get_label (meta_of a) kubernetes_app_component_key) c m refl)

  pub note_items-append :
      (xs ys : List A) (m : Map Bool)
      → note_items meta_of is_ready (xs ++ ys) m
        ≡ note_items meta_of is_ready ys (note_items meta_of is_ready xs m)
  unfolding note_items
  note_items-append [] ys m = refl
  note_items-append (x ∷ xs) ys m = note_items-append xs ys (note_item meta_of is_ready x m)

pub noted-append :
    (c : String) (ws vs : List Workload) (o : Option Bool)
    → noted c (ws ++ vs) o ≡ noted c vs (noted c ws o)
unfolding noted
noted-append c [] vs o = refl
noted-append c (w ∷ ws) vs o = noted-append c ws vs _

-- The component's part of the map, from the start: nothing without a workload, and else whether all
-- of its workloads are ready.
noted-some :
    (c : String) (ws : List Workload) (b : Bool) → noted c ws (some b) ≡ some (b && all_ready c ws)
unfolding noted all_ready note_ready
noted-some c [] b = ground arith
noted-some c (w ∷ ws) b = ground (arith, noted-some c ws b, noted-some c ws (b && w.ready))

pub noted-none :
    (c : String) (ws : List Workload)
    → noted c ws none ≡ (if has_workload c ws then some (all_ready c ws) else none)
unfolding noted all_ready has_workload note_ready
noted-none c [] = refl
noted-none c (w ∷ ws) = ground (arith, noted-none c ws, noted-some c ws w.ready)

pub lookup-note_always :
    (c : String) (cs : List String) (m : Map Bool)
    → lookup c (note_always cs m) ≡ (if has c cs then some true else lookup c m)
unfolding note_always has
lookup-note_always c [] m = refl
lookup-note_always c (d ∷ cs) m =
    ground (arith, lookup-note_always c cs (insert d true m), lookup-insert d c true m)

-- How often a map holds a key: an assignment keeps keys unique.
unfoldable pub count_key : String → Map Bool → ℕ
count_key c [] = 0
count_key c ((d, b) ∷ m) = let rest = count_key c m in if d == c then suc rest else rest

pub count_key-insert :
    (c d : String) (b : Bool) (m : Map Bool)
    → count_key c (insert d b m) ≡ (if d == c && nat_eq (count_key c m) 0 then 1 else count_key c m)
unfolding count_key insert
count_key-insert c d b [] = ground arith
count_key-insert c d b ((e, v) ∷ m) =
    ground (arith, count_key-insert c d b m, eq_iff e d, eq_iff e c, eq_iff d c)

unfoldable pub is_true : Option Bool → Bool
is_true none = false
is_true (some b) = b

unfoldable pub is_false : Option Bool → Bool
is_false none = false
is_false (some b) = not b

absent_lem :
    (c : String) (m : Map Bool)
    → count_key c m ≡ 0
    → (has c (ready_names m).0 ≡ false) × (has c (ready_names m).1 ≡ false)
unfolding count_key ready_names has
absent_lem c [] h = (refl, refl)
absent_lem c ((d, b) ∷ m) h = ground (
  arith,
  absent_lem c m,
  has-set_insert d c (ready_names m).0,
  has-set_insert d c (ready_names m).1,
)

-- Where keys are unique, the two lists hold the keys that are true and those that are false.
pub has-ready_names :
    (c : String) (m : Map Bool)
    → count_key c m ≤ 1
    → (has c (ready_names m).0 ≡ is_true (lookup c m))
      × (has c (ready_names m).1 ≡ is_false (lookup c m))
unfolding count_key ready_names has lookup is_true is_false
has-ready_names c [] h = (refl, refl)
has-ready_names c ((d, b) ∷ m) h = ground (
  arith,
  absent_lem c m,
  has-ready_names c m,
  has-set_insert d c (ready_names m).0,
  has-set_insert d c (ready_names m).1,
)
