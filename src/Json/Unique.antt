-- ===== src/Json/Unique.antt =====
-- `read_json` accepts exactly the texts whose objects repeat no key, and changes none of them.
use aura_server.Base.{
  String, ◌≡◌, refl, ap, ◌↔◌, inl, inr, true, false, ◌||◌, Option, some, List, [], ◌∷◌, ◌++◌,
  string_eq, contains, Bool-cases, Option-cases, arith, ok, bind-eq-ok, eq_self, ℕ,
}
use mathlib.Core.List.{append-nil, append_assoc}
use text.Mathlib.TextEquality.{eq_iff}
use aura_server.Base.Dict.{Dict, keys, insert}
use aura_server.Json.{
  Value, null, bool, int, float, str, array, object, Items, nil, item, Fields, end, field, to_dict,
  of_dict, unique, hooked, hooked_items, hooked_fields, read_json,
}

-- No text occurs twice.
abbrev pub Distinct : List String → Type 0
Distinct [] = Unit
Distinct (k ∷ ks) = (contains ks k ≡ false) × Distinct ks

-- Every object of a value has distinct keys.
abbrev mutual
  pub HasUniqueKeys : Value → Type 0
  HasUniqueKeys (array xs) = HasUniqueKeysItems xs
  HasUniqueKeys (object fs) = Distinct (keys (to_dict fs)) × HasUniqueKeysFields fs
  HasUniqueKeys _ = Unit

  pub HasUniqueKeysItems : Items → Type 0
  HasUniqueKeysItems nil = Unit
  HasUniqueKeysItems (item x xs) = HasUniqueKeys x × HasUniqueKeysItems xs

  pub HasUniqueKeysFields : Fields → Type 0
  HasUniqueKeysFields end = Unit
  HasUniqueKeysFields (field k v fs) = HasUniqueKeys v × HasUniqueKeysFields fs

of_dict-to_dict : (fs : Fields) → of_dict (to_dict fs) ≡ fs
of_dict-to_dict end = refl
of_dict-to_dict (field k v fs) = ap (field k v) (of_dict-to_dict fs)

insert-append :
    (k : String) (v : Value) (d : Dict Value)
    → contains (keys d) k ≡ false
    → insert k v d ≡ d ++ ((k, v) ∷ [])
unfolding insert
insert-append k v [] h = refl
insert-append k v ((j, w) ∷ d) h = ground (arith, insert-append k v d)

keys-append : (d e : Dict Value) → keys (d ++ e) ≡ keys d ++ keys e
keys-append [] e = refl
keys-append ((k, v) ∷ d) e = ap (λ r. k ∷ r) (keys-append d e)

contains-append :
    (xs ys : List String) (s : String) → contains (xs ++ ys) s ≡ (contains xs s || contains ys s)
contains-append [] ys s = refl
contains-append (x ∷ xs) ys s = ground (arith, contains-append xs ys s)

contains-middle : (xs ys : List String) (s : String) → contains (xs ++ (s ∷ ys)) s ≡ true
contains-middle [] ys s = rw (eq_self s)
contains-middle (x ∷ xs) ys s = ground (arith, contains-middle xs ys s)

Distinct-append_one :
    (ks : List String) (k : String)
    → Distinct ks
    → contains ks k ≡ false
    → Distinct (ks ++ (k ∷ []))
Distinct-append_one [] k d h = (refl, tt)
Distinct-append_one (j ∷ ks) k (a, d) h = (
  ground (arith, contains-append ks (k ∷ []) j, eq_iff j k, eq_iff k j),
  Distinct-append_one ks k d (ground arith),
)

Distinct-middle :
    (ks js : List String) (k : String) → Distinct (ks ++ (k ∷ js)) → contains ks k ≡ false
Distinct-middle [] js k d = refl
Distinct-middle (j ∷ ks) js k (a, d) =
    ground (arith, eq_iff j k, contains-middle ks js k, Distinct-middle ks js k d)

keys-snoc :
    (k : String) (v : Value) (d : Dict Value) → keys (d ++ ((k, v) ∷ [])) ≡ keys d ++ (k ∷ [])
keys-snoc k v d = keys-append d ((k, v) ∷ [])

unique-eq-ok :
    (fs : Fields) (d r : Dict Value)
    → Distinct (keys d)
    → (unique fs d ≡ ok r) ↔ ((d ++ to_dict fs ≡ r) × Distinct (keys (d ++ to_dict fs)))
unfolding unique
unique-eq-ok end d r u = rw append-nil (λ h. (ground arith, u), λ h. rw (h.0))
unique-eq-ok (field k v fs) d r u = elim (Bool-cases (contains (keys d) k)) [
  | inl old ↦
      rw (old, keys-append)
        (λ h. cc, λ h. cc (old, Distinct-middle (keys d) (keys (to_dict fs)) k h.1))
  | inr new ↦
      let u' : Distinct (keys (d ++ ((k, v) ∷ []))) =
        rw (keys-snoc k v d) (Distinct-append_one (keys d) k u new) in
      rw (new, insert-append k v d new)
        (rw (append_assoc d ((k, v) ∷ []) (to_dict fs)) at
          (unique-eq-ok fs (d ++ ((k, v) ∷ [])) r u'))
]

mutual
  unfolding hooked

  hooked_complete : (v : Value) → HasUniqueKeys v → hooked v ≡ ok v
  hooked_complete null h = refl
  hooked_complete (bool b) h = refl
  hooked_complete (int n) h = refl
  hooked_complete (float x) h = refl
  hooked_complete (str s) h = refl
  hooked_complete (array xs) h = rw (hooked_items_complete xs h)
  hooked_complete (object fs) (distinct, h) = rw (
    hooked_fields_complete fs h,
    (unique-eq-ok fs [] (to_dict fs) tt).1 (refl, distinct),
    of_dict-to_dict fs,
  )

  hooked_items_complete : (xs : Items) → HasUniqueKeysItems xs → hooked_items xs ≡ ok xs
  hooked_items_complete nil h = refl
  hooked_items_complete (item x xs) (h, hs) = rw (hooked_complete x h, hooked_items_complete xs hs)

  hooked_fields_complete : (fs : Fields) → HasUniqueKeysFields fs → hooked_fields fs ≡ ok fs
  hooked_fields_complete end h = refl
  hooked_fields_complete (field k v fs) (h, hs) =
      rw (hooked_complete v h, hooked_fields_complete fs hs)

mutual
  unfolding hooked

  hooked_sound : (v r : Value) → hooked v ≡ ok r → (v ≡ r) × HasUniqueKeys v
  hooked_sound null r h = (cc, tt)
  hooked_sound (bool b) r h = (cc, tt)
  hooked_sound (int n) r h = (cc, tt)
  hooked_sound (float x) r h = (cc, tt)
  hooked_sound (str s) r h = (cc, tt)
  hooked_sound (array xs) r h =
      let (ys, e, f) = bind-eq-ok (hooked_items xs) (λ ys. ok (array ys)) h in
      let (same, u) = hooked_items_sound xs ys e in (cc, u)
  hooked_sound (object fs) r h =
      let (gs, e, f) = bind-eq-ok (hooked_fields fs) _ h in
      let (d, e', f') = bind-eq-ok (unique gs []) (λ d. ok (object (of_dict d))) f in
      let (same, u) = hooked_fields_sound fs gs e in
      let (same', u') = (unique-eq-ok gs [] d tt).0 e' in (cc (of_dict-to_dict gs), (rw same u', u))

  hooked_items_sound : (xs ys : Items) → hooked_items xs ≡ ok ys → (xs ≡ ys) × HasUniqueKeysItems xs
  hooked_items_sound nil ys h = (cc, tt)
  hooked_items_sound (item x xs) ys h =
      let (y, e, f) = bind-eq-ok (hooked x) _ h in
      let (zs, e', f') = bind-eq-ok (hooked_items xs) (λ zs. ok (item y zs)) f in
      let (same, u) = hooked_sound x y e in
      let (same', u') = hooked_items_sound xs zs e' in (cc, (u, u'))

  hooked_fields_sound :
      (fs gs : Fields) → hooked_fields fs ≡ ok gs → (fs ≡ gs) × HasUniqueKeysFields fs
  hooked_fields_sound end gs h = (cc, tt)
  hooked_fields_sound (field k v fs) gs h =
      let (w, e, f) = bind-eq-ok (hooked v) _ h in
      let (hs, e', f') = bind-eq-ok (hooked_fields fs) (λ hs. ok (field k w hs)) f in
      let (same, u) = hooked_sound v w e in
      let (same', u') = hooked_fields_sound fs hs e' in (cc, (u, u'))

-- `read_json` returns a value exactly if the text is that value's and none of its objects, however
-- deep, repeats a key.
pub read_json-eq-ok :
    (loads : List ℕ → Option Value) (bytes : List ℕ) (v : Value)
    → (read_json loads bytes ≡ ok v) ↔ ((loads bytes ≡ some v) × HasUniqueKeys v)
unfolding read_json
read_json-eq-ok loads bytes v = elim (Option-cases (loads bytes)) [
  | inl e ↦ rw (e, read_json) (λ h. cc, λ h. cc)
  | inr (w, e) ↦
      rw (e, read_json)
        (
          λ h. let (same, u) = hooked_sound w v h in (cc, rw (← same) u),
          λ h. let same : w ≡ v = cc (h.0) in rw same (hooked_complete v h.1),
        )
]
