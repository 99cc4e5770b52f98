-- ===== src/Json.antt =====
-- The values that `json.loads` gives, Python's `==` on them, and `read_json` of release.py.
pub mod Unique
use Prim.Native.Nat.{◌*◌, ◌^◌}
use aura_server.Base.{
  ℕ, suc, String, Bool, true, false, not, ◌&&◌, length, Option, none, some, List, [], ◌∷◌, ◌==◌,
  nat_eq, string_eq, contains, if◌then◌else◌, Result, ok, err, ◌>>=◌, invalid_release, value_error,
  attribute_error,
}
use aura_server.Base.Dict.{Dict, keys, lookup, insert}

-- A Python `int`; `negsuc n` is -(n + 1).
pub data ℤ : Type 0 where
  pos negsuc : ℕ → ℤ

-- A Python number without its type: an integer over a power of two (every finite `float` is one), an
-- infinity with its sign, or a NaN.
pub data Number : Type 0 where
  dyadic : ℤ → ℕ → Number
  infinity : Bool → Number
  nan : Number

mutual
  pub data Value : Type 0 where
    null : Value
    bool : Bool → Value
    int : ℤ → Value
    float : Number → Value
    str : String → Value
    array : Items → Value
    object : Fields → Value

  pub data Items : Type 0 where
    nil : Items
    item : Value → Items → Items

  pub data Fields : Type 0 where
    end : Fields
    field : String → Value → Fields → Fields

abbrev pub to_dict : Fields → Dict Value
to_dict end = []
to_dict (field k v fs) = (k, v) ∷ to_dict fs

-- `value.get`, which only a dict has
abbrev pub as_object : Value → Result (Dict Value)
as_object (object fs) = ok (to_dict fs)
as_object _ = err attribute_error

abbrev pub is_negative : ℤ → Bool
is_negative (pos _) = false
is_negative (negsuc _) = true

abbrev pub magnitude : ℤ → ℕ
magnitude (pos n) = n
magnitude (negsuc n) = suc n

abbrev same : Bool → Bool → Bool
same s t = if s then t else not t

-- Two fractions are compared by crosswise multiplication.
abbrev number_eq : Number → Number → Bool
number_eq (dyadic m k) (dyadic n j) =
    same (is_negative m) (is_negative n) && magnitude m * 2 ^ j == magnitude n * 2 ^ k
number_eq (infinity s) (infinity t) = same s t
number_eq _ _ = false

-- `True` and `False` are the integers 1 and 0.
abbrev pub number_of : Value → Option Number
number_of (bool b) = some (dyadic (pos (if b then 1 else 0)) 0)
number_of (int n) = some (dyadic n 0)
number_of (float x) = some x
number_of _ = none

abbrev numbers_eq : Option Number → Option Number → Bool
numbers_eq (some x) (some y) = number_eq x y
numbers_eq _ _ = false

-- `a == b`. Two dicts are equal if they have as many keys and agree at each.
unfoldable mutual
  unfolding lookup

  pub value_eq : Value → Value → Bool
  value_eq null w = elim w [ null ↦ true | _ ↦ false ]
  value_eq (bool b) w = numbers_eq (number_of (bool b)) (number_of w)
  value_eq (int n) w = numbers_eq (number_of (int n)) (number_of w)
  value_eq (float x) w = numbers_eq (number_of (float x)) (number_of w)
  value_eq (str s) w = elim w [ str t ↦ s == t | _ ↦ false ]
  value_eq (array xs) w = elim w [ array ys ↦ items_eq xs ys | _ ↦ false ]
  value_eq (object fs) w = elim w [
    | object gs ↦ length (to_dict fs) == length (to_dict gs) && fields_eq fs (to_dict gs)
    | _ ↦ false
  ]

  pub items_eq : Items → Items → Bool
  items_eq nil ys = elim ys [ nil ↦ true | _ ↦ false ]
  items_eq (item x xs) ys = elim ys [ nil ↦ false | item y ys ↦ value_eq x y && items_eq xs ys ]

  pub fields_eq : Fields → Dict Value → Bool
  fields_eq end d = true
  fields_eq (field k v fs) d = elim (lookup k d) [
    | none ↦ false
    | some w ↦ value_eq v w && fields_eq fs d
  ]

-- The hook of `read_json`: it builds the dict of one object from its pairs.
unfoldable pub unique : Fields → Dict Value → Result (Dict Value)
unique end result = ok result
unique (field key value pairs) result =
    let rest = unique pairs (insert key value result) in
    if contains (keys result) key then err (invalid_release "Duplicate manifest key") else rest

abbrev pub of_dict : Dict Value → Fields
of_dict [] = end
of_dict ((k, v) ∷ d) = field k v (of_dict d)

-- `json.loads` calls the hook for each object, an inner one before the outer.
unfoldable mutual
  pub hooked : Value → Result Value
  hooked null = ok null
  hooked (bool b) = ok (bool b)
  hooked (int n) = ok (int n)
  hooked (float x) = ok (float x)
  hooked (str s) = ok (str s)
  hooked (array xs) = do ys ← hooked_items xs; ok (array ys)
  hooked (object pairs) = do
    inner ← hooked_fields pairs
    result ← unique inner []
    ok (object (of_dict result))

  pub hooked_items : Items → Result Items
  hooked_items nil = ok nil
  hooked_items (item x xs) = do y ← hooked x; ys ← hooked_items xs; ok (item y ys)

  pub hooked_fields : Fields → Result Fields
  hooked_fields end = ok end
  hooked_fields (field k v fs) = do w ← hooked v; gs ← hooked_fields fs; ok (field k w gs)

-- `loads` reads the text of a value, its objects as lists of pairs; `none` is a `JSONDecodeError`.
unfoldable pub read_json : (List ℕ → Option Value) → List ℕ → Result Value
read_json loads bytes = elim (loads bytes) [
  | none ↦ err (value_error "JSONDecodeError")
  | some v ↦ hooked v
]
