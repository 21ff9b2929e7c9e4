-- ===== src/Common/Labels.antt =====
-- What reads of labels and annotations give after they were written.
use istio_operator.Prelude.{
  ◌≡◌, refl, String, Option, none, some, [], Map, lookup, insert, lookup-insert, lookup-delete,
  arith, ◌==◌, if◌then◌else◌,
}
use istio_operator.Kube.{ObjectMeta}
use istio_operator.Common.{
  find, remove, or_new, get_label, set_label, delete_label, get_annotation, set_annotation,
  delete_annotation,
}

lookup-empty : (k : String) → lookup {V = String} k [] ≡ none
unfolding lookup
lookup-empty k = refl

find-insert :
    (k v j : String) (m : Option (Map String))
    → lookup j (insert k v (or_new m)) ≡ (if k == j then some v else find j m)
unfolding find or_new
find-insert k v j none = ground (arith, lookup-insert {V = String} k j v [], lookup-empty j)
find-insert k v j (some m) = lookup-insert k j v m

find-remove :
    (k j : String) (m : Option (Map String))
    → find j (remove k m) ≡ (if k == j then none else find j m)
unfolding find remove
find-remove k j none = ground arith
find-remove k j (some m) = lookup-delete k j m

-- A label that was set reads as its value and every other label as before, on a nil map or not; a
-- label that was deleted is missing and every other label reads as before.
pub get_label-set_label :
    (o : ObjectMeta) (k v j : String)
    → (get_label (set_label o k v) j ≡ (if k == j then some v else get_label o j))
      × (get_label (delete_label o k) j ≡ (if k == j then none else get_label o j))
unfolding get_label set_label delete_label
get_label-set_label o k v j = (find-insert k v j o.labels, find-remove k j o.labels)

-- An annotation that was set reads as its value and every other one as before, on a nil map or not;
-- one that was deleted is missing and every other one reads as before.
pub get_annotation-set_annotation :
    (o : ObjectMeta) (k v j : String)
    → (get_annotation (set_annotation o k v) j ≡ (if k == j then some v else get_annotation o j))
      × (get_annotation (delete_annotation o k) j ≡ (if k == j then none else get_annotation o j))
unfolding get_annotation set_annotation delete_annotation
get_annotation-set_annotation o k v j =
    (find-insert k v j o.annotations, find-remove k j o.annotations)

pub get_label-delete_label :
    (o : ObjectMeta) (k j : String)
    → get_label (delete_label o k) j ≡ (if k == j then none else get_label o j)
get_label-delete_label o k j = (get_label-set_label o k "" j).1

pub get_label-set_label_only :
    (o : ObjectMeta) (k v j : String)
    → get_label (set_label o k v) j ≡ (if k == j then some v else get_label o j)
get_label-set_label_only o k v j = (get_label-set_label o k v j).0
