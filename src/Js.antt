-- ===== src/Js.antt =====
-- JavaScript values as `JSON.parse` makes them and the realtime code handles them: `typeof`, `===`,
-- truthiness, property reads, and `shallowEqual` of
-- apps/frontend/src/features/realtime/store/realtime.store.ts. An array and an object carry the
-- reference by which `===` compares them. NaN does not occur: JSON has none. A number is finite or,
-- for a literal beyond the range of a double, infinite.
use Prim.Native.String.{String}
use text.Mathlib.Text.{◌==◌ as str_eq}
use trading_monitoring_dashb.Base.{
  ℕ, zero, suc, Bool, true, false, not, ◌&&◌, ◌||◌, Option, none, some, List, [], ◌∷◌, length,
  last?, if◌then◌else◌, ◌==◌,
}
use trading_monitoring_dashb.Base.Int.{ℤ, pos, eq_ℤ, ltb_ℤ}
use trading_monitoring_dashb.Base.Text.{codes, trim, is_nil}
pub mod Equality

mutual
  pub data Js : Type 0 where
    undefined : Js
    null : Js
    bool : Bool → Js
    num : ℤ → Js
    infinite : Bool → Js
    str : String → Js
    arr : ℕ → Items → Js
    obj : ℕ → Fields → Js

  pub data Items : Type 0 where
    nil : Items
    cons : Js → Items → Items

  pub data Fields : Type 0 where
    end : Fields
    field : String → Js → Fields → Fields

-- A key of an object, or an index of an array.
pub data Key : Type 0 where
  name : String → Key
  index : ℕ → Key

abbrev bool_eq : Bool → Bool → Bool
bool_eq true b = b
bool_eq false b = not b

-- `a === b`.
unfoldable pub strict_eq : Js → Js → Bool
strict_eq undefined undefined = true
strict_eq null null = true
strict_eq (bool a) (bool b) = bool_eq a b
strict_eq (num a) (num b) = eq_ℤ a b
strict_eq (infinite a) (infinite b) = bool_eq a b
strict_eq (str a) (str b) = str_eq a b
strict_eq (arr r xs) (arr s ys) = r == s
strict_eq (obj r fs) (obj s gs) = r == s
strict_eq _ _ = false

-- `Boolean(a)`.
unfoldable pub truthy : Js → Bool
truthy undefined = false
truthy null = false
truthy (bool b) = b
truthy (num n) = not (eq_ℤ n (pos 0))
truthy (infinite b) = true
truthy (str s) = not (str_eq s "")
truthy (arr r xs) = true
truthy (obj r fs) = true

-- `typeof a === "object" && a !== null`.
unfoldable pub is_object : Js → Bool
is_object (arr r xs) = true
is_object (obj r fs) = true
is_object _ = false

unfoldable pub is_undefined : Js → Bool
is_undefined undefined = true
is_undefined _ = false

-- `typeof a === "number"`.
unfoldable pub is_number : Js → Bool
is_number (num n) = true
is_number (infinite b) = true
is_number _ = false

-- `s.trim()` is not empty.
unfoldable pub has_text : String → Bool
has_text s = not (is_nil (trim (codes s)))

unfoldable pub get_field : String → Fields → Js
get_field k end = undefined
get_field k (field j v fs) = if str_eq j k then v else get_field k fs

-- `a?.k`; only objects have the fields that the code reads.
unfoldable pub get : Js → String → Js
unfolding get_field
get (obj r fs) k = get_field k fs
get _ k = undefined

abbrev pub to_list : Items → List Js
to_list nil = []
to_list (cons x xs) = x ∷ to_list xs

abbrev pub of_list : List Js → Items
of_list [] = nil
of_list (x ∷ xs) = cons x (of_list xs)

-- `Array.isArray(a) ? a : []`.
unfoldable pub items_or_empty : Js → List Js
items_or_empty (arr r xs) = to_list xs
items_or_empty _ = []

-- `items[items.length - 1]`.
abbrev pub last_or_undefined : List Js → Js
last_or_undefined xs = elim (last? xs) [ none ↦ undefined | some x ↦ x ]

-- The keys with their values, as `Object.keys` lists them.
field_entries : Fields → List (Key × Js)
field_entries end = []
field_entries (field k v fs) = (name k, v) ∷ field_entries fs

item_entries : ℕ → Items → List (Key × Js)
item_entries i nil = []
item_entries i (cons x xs) = (index i, x) ∷ item_entries (suc i) xs

unfoldable pub entries : Js → List (Key × Js)
unfolding field_entries item_entries
entries (obj r fs) = field_entries fs
entries (arr r xs) = item_entries 0 xs
entries _ = []

abbrev pub key_eq : Key → Key → Bool
key_eq (name a) (name b) = str_eq a b
key_eq (index i) (index j) = i == j
key_eq _ _ = false

unfoldable pub lookup_key : Key → List (Key × Js) → Js
lookup_key k [] = undefined
lookup_key k ((j, v) ∷ es) = if key_eq j k then v else lookup_key k es

-- The loop of `shallowEqual` over the keys of `a`.
unfoldable pub all_same : List (Key × Js) → List (Key × Js) → Bool
all_same [] bs = true
all_same ((k, v) ∷ es) bs = if not (strict_eq v (lookup_key k bs)) then false else all_same es bs

unfoldable pub shallow_equal : Js → Js → Bool
unfolding strict_eq is_object entries all_same lookup_key
shallow_equal a b =
    if strict_eq a b
    then true
    else if not (is_object a) || not (is_object b)
    then false
    else if not (length (entries a) == length (entries b))
    then false
    else all_same (entries a) (entries b)
