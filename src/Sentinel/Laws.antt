-- ===== src/Sentinel/Laws.antt =====
-- What the map of a SENTINEL reply holds.
use redis_sentinel_reconcile.Prelude.{
  List, [], ◌∷◌, ◌++◌, Option, none, some, ◌≡◌, refl, arith, if◌then◌else◌,
}
use redis_sentinel_reconcile.Text.{Text, codes, text_eq}
use redis_sentinel_reconcile.Text.Laws.{text_eq_iff}
use redis_sentinel_reconcile.Commands.{Reply, ok, err}
use redis_sentinel_reconcile.Sentinel.{Fields, field?, put_field, kv_onto, kv_slice_to_map}

-- Keys and values in turn, as Sentinel sends them.
unfoldable pub flat : Fields → List Text
flat [] = []
flat ((k, v) ∷ kvs) = k ∷ v ∷ flat kvs

-- The last value that the pairs give to a key, or else `before`.
unfoldable pub last_of : Text → Fields → Option Text → Option Text
last_of k [] before = before
last_of k ((j, v) ∷ kvs) before = last_of k kvs (if text_eq j k then some v else before)

abbrev pub lookup : Text → Reply Fields → Reply (Option Text)
lookup k (err e) = err e
lookup k (ok m) = ok (field? k m)

field?-put_field :
    (j v k : Text) (m : Fields)
    → field? k (put_field j v m) ≡ (if text_eq j k then some v else field? k m)
unfolding field? put_field
field?-put_field j v k [] = ground arith
field?-put_field j v k ((i, w) ∷ m) =
    ground (arith, field?-put_field j v k m, text_eq_iff i j, text_eq_iff i k, text_eq_iff j k)

kv_onto-flat :
    (k : Text) (kvs : Fields) (m : Fields)
    → lookup k (kv_onto m (flat kvs)) ≡ ok (last_of k kvs (field? k m))
unfolding kv_onto flat last_of
kv_onto-flat k [] m = refl
kv_onto-flat k ((j, v) ∷ kvs) m =
    rw (kv_onto-flat k kvs (put_field j v m), field?-put_field j v k m) refl

kv_onto-odd :
    (kvs : Fields) (k : Text) (m : Fields)
    → kv_onto m (flat kvs ++ k ∷ []) ≡ err (codes "odd key/value slice length")
unfolding kv_onto flat
kv_onto-odd [] k m = refl
kv_onto-odd ((j, v) ∷ kvs) k m = kv_onto-odd kvs k (put_field j v m)

-- The map of a reply gives each key its last value in the reply and no value to other keys; a reply
-- with a key left over is an error.
pub kv_slice_to_map_lem :
    (kvs : Fields) (k : Text)
    → (lookup k (kv_slice_to_map (flat kvs)) ≡ ok (last_of k kvs none))
      × (kv_slice_to_map (flat kvs ++ k ∷ []) ≡ err (codes "odd key/value slice length"))
unfolding kv_slice_to_map field?
kv_slice_to_map_lem kvs k = (kv_onto-flat k kvs [], kv_onto-odd kvs k [])
