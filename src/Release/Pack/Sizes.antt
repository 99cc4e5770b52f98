-- ===== src/Release/Pack/Sizes.antt =====
-- The bytes of the members of an archive, against those of the directory.
use aura_server.Base.{
  ℕ, ◌+◌, ◌≤◌, ◌≡◌, refl, inl, inr, String, false, none, some, List, [], ◌∷◌, ◌==◌, string_eq,
  nat_eq, length, contains, All, Bool-cases, arith,
}
use text.Mathlib.TextEquality.{eq_iff}
use aura_server.Base.Dict.{lookup, insert, erase, lookup-erase}
use aura_server.Json.Unique.{Distinct}
use aura_server.Release.Tree.{Tree, Node, file, folder, link, special, total_size}
use aura_server.Release.Pack.{Packed}
use aura_server.Release.Pack.Whole.{IsMember, member_names}

abbrev pub byte_count : List Packed → ℕ
byte_count [] = 0
byte_count (m ∷ ms) = length m.bytes + byte_count ms

abbrev pub node_size : Node → ℕ
node_size (file _ bytes) = length bytes
node_size _ = 0

total_size-cons :
    (k : String) (v : Node) (t : Tree) → total_size ((k, v) ∷ t) ≡ node_size v + total_size t
unfolding total_size
total_size-cons k (file _ bytes) t = refl
total_size-cons k folder t = omega arith
total_size-cons k link t = omega arith
total_size-cons k special t = omega arith

total_size-erase_le : (n : String) (t : Tree) → total_size (erase n t) ≤ total_size t
unfolding erase
total_size-erase_le n [] = omega arith
total_size-erase_le n ((k, v) ∷ t) = elim (Bool-cases (k == n)) [
  | inl e ↦ rw e (omega (arith, total_size-cons k v t, total_size-erase_le n t))
  | inr e ↦ rw e (
      omega
        (arith, total_size-cons k v t, total_size-cons k v (erase n t), total_size-erase_le n t))
]

total_size-erase :
    (n : String) (t : Tree) (v : Node)
    → lookup n t ≡ some v
    → node_size v + total_size (erase n t) ≤ total_size t
unfolding lookup erase
total_size-erase n [] v h = absurd (cc h)
total_size-erase n ((k, w) ∷ t) v h = elim (Bool-cases (k == n)) [
  | inl e ↦
      let same : some w ≡ some v = rw e at h in
      let size : node_size w ≡ node_size v = cc same in
      rw e (omega (arith, size, total_size-cons k w t, total_size-erase_le n t))
  | inr e ↦
      let rest = total_size-erase n t v (rw e at h) in
      rw e (omega (arith, rest, total_size-cons k w t, total_size-cons k w (erase n t)))
]

IsMember-erase :
    (n : String) (t : Tree) (ms : List Packed)
    → contains (member_names ms) n ≡ false
    → All (IsMember t) ms
    → All (IsMember (erase n t)) ms
IsMember-erase n t [] c h = tt
IsMember-erase n t (m ∷ ms) c (((mode, there), q, timeless), h) = (
  (
    (mode, rw lookup-erase (ground (arith, c, eq_iff n m.name, eq_iff m.name n, there))),
    q,
    timeless,
  ),
  IsMember-erase n t ms (ground (arith, c)) h,
)

-- Files under distinct names have no more bytes together than the whole directory.
pub byte_count-bound :
    (t : Tree) (ms : List Packed)
    → Distinct (member_names ms)
    → All (IsMember t) ms
    → byte_count ms ≤ total_size t
byte_count-bound t [] d h = omega arith
byte_count-bound t (m ∷ ms) (d, ds) (((mode, there), q, _), h) =
    let rest = byte_count-bound (erase m.name t) ms ds (IsMember-erase m.name t ms d h) in
    omega (arith, rest, total_size-erase m.name t (file mode m.bytes) there)

-- A new entry adds its own bytes.
pub total_size-insert :
    (n : String) (v : Node) (t : Tree)
    → lookup n t ≡ none
    → total_size (insert n v t) ≡ total_size t + node_size v
unfolding lookup insert
total_size-insert n v [] h = omega (arith, total_size-cons n v [])
total_size-insert n v ((k, w) ∷ t) h = elim (Bool-cases (k == n)) [
  | inl e ↦ absurd (cc (rw e at h))
  | inr e ↦
      let rest = total_size-insert n v t (rw e at h) in
      rw e (omega (arith, rest, total_size-cons k w t, total_size-cons k w (insert n v t)))
]
