-- ===== src/Profiles/Values.antt =====
-- mergeValues of pkg/controller/versions/template.go, on the values of Helm charts.
use istio_operator.Prelude.{String, Option, none, some, ◌==◌, if◌then◌else◌}

-- A value is a map or something else, of which nothing is read. A map lists its keys with their values.
mutual
  pub data Value : Type 0 where
    scalar : String → Value
    table : Fields → Value

  pub data Fields : Type 0 where
    end : Fields
    field : String → Value → Fields → Fields

-- base[key]
unfoldable pub find : String → Fields → Option Value
find key end = none
find key (field name held rest) = if name == key then some held else find key rest

-- base[key] = value
unfoldable pub set_field : String → Value → Fields → Fields
set_field key value end = field key value end
set_field key value (field name held rest) =
    let others = set_field key value rest in
    if name == key then field key value rest else field name held others

-- mergeValues. An absent map is an empty one. merge_value is what becomes of a key that is in both:
-- where they are not both maps, the base keeps what it has.
unfoldable mutual
  unfolding find set_field

  pub merge_value : Value → Value → Value
  merge_value (scalar b) input = scalar b
  merge_value (table base) (scalar i) = table base
  merge_value (table base) (table input) = table (merge_values base input)

  pub merge_values : Fields → Fields → Fields
  merge_values base end = base
  merge_values base (field key value rest) =
      merge_values
        (elim (find key base) [
          | none ↦ set_field key value base
          | some held ↦ set_field key (merge_value held value) base
        ])
        rest
