-- ===== src/Release/Archive/Members.antt =====
-- What `extract` has done when it ends well: each member became one file, and nothing else did.
use aura_server.Base.{
  ℕ, ◌+◌, ◌≤◌, ◌≡◌, refl, ◌⊎◌, inl, inr, String, true, false, not, ◌||◌, Option, none, some, List,
  [], ◌∷◌, length, ltb, ◌==◌, nat_eq, string_eq, contains, codes, Bool-cases, Option-cases, ok,
  bind-eq-ok, raise_if-then, ok-injective, arith,
}
use text.Mathlib.TextEquality.{eq_iff}
use aura_server.Base.Dict.{lookup, insert, lookup-insert, lookup-insert_self, insert_cases}
use aura_server.Json.{is_negative, magnitude}
use aura_server.Release.Member.{member_name}
use aura_server.Release.Member.Parts.{IsAccepted}
use aura_server.Release.Member.Accepted.{member_name-eq-ok}
use aura_server.Release.Tree.{Tree, Node, file, folder, max_expanded, max_files}
use aura_server.Release.Disk.Parents.{parents, mkdirs, mkdirs-keeps, mkdirs-new}
use aura_server.Release.Archive.{
  TarMember, Stream, done, broken, next, is_regular, is_file, file_mode, is_folder, create,
  extract_member,
}

-- The members of an archive, in order.
abbrev pub members : Stream → List TarMember
members done = []
members broken = []
members (next m rest) = m ∷ members rest

abbrev pub Among : TarMember → List TarMember → Type 0
Among m [] = ⊥
Among m (x ∷ xs) = (x ≡ m) ⊎ Among m xs

-- The sizes that the headers state.
abbrev pub stated_size : List TarMember → ℕ
stated_size [] = 0
stated_size (m ∷ ms) = magnitude m.size + stated_size ms

-- The file that a member stands for.
abbrev pub IsFileOf : Tree → TarMember → List ℕ → Type 0
IsFileOf t m bytes =
    (m.content ≡ some bytes) × (lookup m.name t ≡ some (file (file_mode m.name) bytes))

-- A regular file under an acceptable name, of a size that is no negative number.
pub record IsPlainMember (m : TarMember) : Type 0 where
  pub regular : is_regular m.kind ≡ true
  pub accepted : IsAccepted (codes m.name)
  pub not_dot : (m.name == ".") ≡ false
  pub positive : is_negative m.size ≡ false

create-eq-ok :
    (name : String) (content : Option (List ℕ)) (t t' : Tree)
    → create name content t ≡ ok t'
    → (bytes : List ℕ) × (content ≡ some bytes)
      × (lookup name t ≡ none)
      × ((name == ".") ≡ false)
      × (insert name (file (file_mode name) bytes) t ≡ t')
unfolding create
create-eq-ok name content t t' h = elim (Option-cases (lookup name t)) [
  | inr (v, taken) ↦ absurd (cc (rw (taken, create) at h))
  | inl free ↦ elim (Bool-cases (name == ".")) [
    | inl dot ↦ absurd (cc (rw (free, create, dot) at h))
    | inr other ↦ elim (Option-cases content) [
      | inl e ↦ absurd (cc (rw (free, create, other, e) at h))
      | inr (bytes, e) ↦ (bytes, e, free, other, ok-injective (rw (free, create, other, e) at h))
    ]
  ]
]

file-injective : {m n : ℕ} {a b : List ℕ} → file m a ≡ file n b → (m ≡ n) × (a ≡ b)
file-injective h = (cc, cc)

-- One round of the loop.
pub record IsRound (m : TarMember) (seen : List String) (total : ℕ) (t t' : Tree) : Type 0 where
  pub plain : IsPlainMember m
  pub unseen : contains seen m.name ≡ false
  pub within : total + magnitude m.size ≤ max_expanded
  pub few : length (m.name ∷ seen) ≤ max_files
  pub bytes : List ℕ
  pub written : IsFileOf t' m bytes
  pub kept : (k : String) (v : Node) → lookup k t ≡ some v → lookup k t' ≡ some v
  pub new :
      (k : String) (mode : ℕ) (b : List ℕ)
      → lookup k t' ≡ some (file mode b)
      → (lookup k t ≡ some (file mode b)) ⊎ ((m.name ≡ k) × (file_mode m.name ≡ mode) × (bytes ≡ b))

module _ (m : TarMember) (seen : List String) (total : ℕ) (t t' : Tree) where
  module _ (below : Tree) (made : mkdirs is_folder folder (parents m.name) t ≡ ok below)
      (bytes : List ℕ) where
    new_file_cases :
        (k : String) (mode : ℕ) (b : List ℕ)
        → ((m.name ≡ k) × (file (file_mode m.name) bytes ≡ file mode b))
          ⊎ (lookup k below ≡ some (file mode b))
        → (lookup k t ≡ some (file mode b))
          ⊎ ((m.name ≡ k) × (file_mode m.name ≡ mode) × (bytes ≡ b))
    new_file_cases k mode b (inl (same, e)) =
        let (modes, contents) = file-injective e in inr (same, modes, contents)
    new_file_cases k mode b (inr e) =
        elim (mkdirs-new is_folder folder (parents m.name) t below k (file mode b) made e) [
          | inl old ↦ inl old
          | inr new ↦ absurd (cc new)
        ]

  IsRound-of_steps :
      (below : Tree) (bytes : List ℕ)
      → is_regular m.kind ≡ true
      → IsAccepted (codes m.name)
      → (not (is_file m.kind) || m.sparse || m.pax || contains seen m.name) ≡ false
      → (is_negative m.size
          || ltb max_expanded (total + magnitude m.size)
          || ltb max_files (length (m.name ∷ seen)))
        ≡ false
      → mkdirs is_folder folder (parents m.name) t ≡ ok below
      → m.content ≡ some bytes
      → lookup m.name below ≡ none
      → (m.name == ".") ≡ false
      → insert m.name (file (file_mode m.name) bytes) below ≡ t'
      → IsRound m seen total t t'
  IsRound-of_steps below bytes regular accepted guard budget made content free other result =
      record {
        plain = record {
          regular = regular;
          accepted = accepted;
          not_dot = other;
          positive = ground arith;
        };
        unseen = ground arith;
        within = ground arith;
        few = ground arith;
        bytes = bytes;
        written = (content, rw (← result) (lookup-insert_self m.name _ below));
        kept = λ k v e.
            let e' = mkdirs-keeps is_folder folder (parents m.name) t below k v made e in
            rw (← result, lookup-insert) (ground (arith, eq_iff m.name k));
        new = λ k mode b e.
            new_file_cases below made bytes k mode b
              (insert_cases m.name k _ (file mode b) below (rw (← result) at e));
      }

  pub IsRound-of_ok :
      is_regular m.kind ≡ true → extract_member m seen total t ≡ ok t' → IsRound m seen total t t'
  unfolding extract_member
  IsRound-of_ok regular h =
      let (name, e1, _) = bind-eq-ok (member_name m.name) _ h in
      let (same, accepted) = (member_name-eq-ok m.name name).0 e1 in
      let g1 = rw ((member_name-eq-ok m.name m.name).1 (refl, accepted)) at h in
      let (guard, g2) =
        raise_if-then (not (is_file m.kind) || m.sparse || m.pax || contains seen m.name) _ _ g1 in
      let (budget, g3) =
        raise_if-then
          (is_negative m.size
            || ltb max_expanded (total + magnitude m.size)
            || ltb max_files (length (m.name ∷ seen)))
          _ _ g2 in
      let (below, made, g4) = bind-eq-ok (mkdirs is_folder folder (parents m.name) t) _ g3 in
      let (bytes, content, free, other, result) = create-eq-ok m.name m.content below t' g4 in
      IsRound-of_steps below bytes regular accepted guard budget made content free other result
