-- ===== src/Value/Laws.antt =====
-- Reading back what was written to a map.
use cff_core.Base.{
  String, false, [], ◌∷◌, none, some, ◌≡◌, refl, ◌==◌, if◌then◌else◌, arith, eq_iff, eq_refl,
}
use cff_core.Value.{Value, Object, empty, field, get, put, delete, object_of}

pub get-put :
    (j k : String) (v : Value) (m : Object)
    → get j (put k v m) ≡ (if k == j then some v else get j m)
unfolding get put
get-put j k v empty = refl
get-put j k v (field i w m) = ground (arith, eq_iff i k, eq_iff i j, eq_iff k j, get-put j k v m)

pub get-delete :
    (j k : String) (m : Object) → get j (delete k m) ≡ (if k == j then none else get j m)
unfolding get delete
get-delete j k empty = ground arith
get-delete j k (field i w m) = ground (arith, eq_iff i k, eq_iff i j, eq_iff k j, get-delete j k m)

pub get-object_of_pair :
    (j k : String) (v w : Value)
    → (k == j) ≡ false
    → get j (object_of ((k, v) ∷ (j, w) ∷ [])) ≡ some w
unfolding object_of
get-object_of_pair j k v w h =
    rw (get-put j k v (put j w empty), h, get-put j j w empty, eq_refl j) refl
