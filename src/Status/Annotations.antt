-- ===== src/Status/Annotations.antt =====
-- What GetAnnotation, SetAnnotation and RemoveAnnotation do together.
use istio_operator.Prelude.{
  insert, ◌≡◌, String, none, some, lookup-insert, lookup, lookup-delete, arith, ◌==◌, if◌then◌else◌,
}
use istio_operator.Status.{Annotations, get_annotation, set_annotation, remove_annotation}

-- Reading an annotation after one was set, on a nil map or not: the value that was set, or what was there.
pub get-set_annotation :
    (name value k : String) (a : Annotations)
    → get_annotation k (set_annotation name value a)
      ≡ (if name == k then value else get_annotation k a)
unfolding get_annotation set_annotation insert lookup
get-set_annotation name value k none = ground arith
get-set_annotation name value k (some m) = ground (arith, lookup-insert name k value m)

-- Reading an annotation after one was removed: the empty string, or what was there.
pub get-remove_annotation :
    (name k : String) (a : Annotations)
    → get_annotation k (remove_annotation name a) ≡ (if name == k then "" else get_annotation k a)
unfolding get_annotation remove_annotation
get-remove_annotation name k none = ground arith
get-remove_annotation name k (some m) = ground (arith, lookup-delete name k m)
