-- ===== src/Value.antt =====
-- The dynamic values of Go (`any`) that the translator reads and writes, and the maps
-- `map[string]any` in which it keeps each proxy, group, inbound, outbound, DNS server and rule.
-- A type assertion is a function by clauses here: it holds on one constructor only.
pub mod Laws
use cff_core.Base.{
  ℕ, ℤ, String, Bool, true, false, List, [], ◌∷◌, ◌++◌, Option, none, some, ◌==◌, if◌then◌else◌,
  is_some,
}

mutual
  pub data Value : Type 0 where
    null : Value
    str : String → Value
    int : ℤ → Value
    int64 : ℤ → Value
    -- A `float64` by its 64 bits: what the program does with one is a parameter (Outside).
    float : ℕ → Value
    bool : Bool → Value
    -- `[]string` and `[]any` are two types, and so are the two kinds of maps and lists of maps.
    strs : List String → Value
    list : Items → Value
    obj : Object → Value
    str_map : List (String × String) → Value
    str_maps : List (List (String × String)) → Value
    objs : Objects → Value
    -- `[]int` and `uint32`, which only inbounds hold.
    ints : List ℤ → Value
    uint32 : ℕ → Value

  pub data Items : Type 0 where
    nil : Items
    cons : Value → Items → Items

  -- A `map[string]any`: each key stands once, since `put` replaces.
  pub data Object : Type 0 where
    empty : Object
    field : String → Value → Object → Object

  pub data Objects : Type 0 where
    none_left : Objects
    object : Object → Objects → Objects

-- `v, ok := m[k]`
unfoldable pub get : String → Object → Option Value
get k empty = none
get k (field j v m) = if j == k then some v else get k m

-- `m[k] = v`
unfoldable pub put : String → Value → Object → Object
put k v empty = field k v empty
put k v (field j w m) = if j == k then field k v m else field j w (put k v m)

-- `delete(m, k)`
unfoldable pub delete : String → Object → Object
delete k empty = empty
delete k (field j v m) = let rest = delete k m in if j == k then rest else field j v rest

-- `_, ok := m[k]`
unfoldable pub has_key : String → Object → Bool
unfolding get
has_key k m = is_some (get k m)

abbrev pub as_str : Option Value → String
as_str (some (str s)) = s
as_str _ = ""

-- `s, _ := m[k].(string)`
unfoldable pub get_text : String → Object → String
unfolding get
get_text k m = as_str (get k m)

abbrev pub as_strs : Option Value → List String
as_strs (some (strs xs)) = xs
as_strs _ = []

-- `xs, _ := m[k].([]string)`
unfoldable pub get_texts : String → Object → List String
unfolding get
get_texts k m = as_strs (get k m)

abbrev pub as_items : Option Value → Items
as_items (some (list xs)) = xs
as_items _ = nil

-- `xs, _ := m[k].([]any)`
unfoldable pub get_items : String → Object → Items
unfolding get
get_items k m = as_items (get k m)

-- The strings among the items: `if s, ok := item.(string); ok`.
unfoldable pub item_texts : Items → List String
item_texts nil = []
item_texts (cons (str s) xs) = s ∷ item_texts xs
item_texts (cons v xs) = item_texts xs

-- A literal `map[string]any{k: v, …}`.
unfoldable pub object_of : List (String × Value) → Object
unfolding put
object_of [] = empty
object_of ((k, v) ∷ rest) = put k v (object_of rest)
