-- ===== src/Release/Bundle/Listed.antt =====
-- `inventory` of release.py, and the tests before it, on a directory that is as the manifest says.
use aura_server.Base.{
  ℕ, ◌+◌, ◌*◌, ◌≤◌, ◌≡◌, refl, ap, inl, inr, String, true, List, [], ◌∷◌, length, all, All, ◌==◌,
  nat_eq, string_eq, list_eq, contains, ok, arith, Bool-cases,
}
use text.Mathlib.TextEquality.{eq_iff}
use aura_server.Base.Dict.{Dict, keys, lookup}
use aura_server.Json.{Value, str, value_eq, read_json}
use aura_server.Release.Member.Accepted.{member_name-eq-ok}
use aura_server.Release.Tree.{Tree, Node, file, folder, link, special, Platform, total_size}
use aura_server.Release.Bundle.{get, read_manifest, check_lock, inventory, read_file}
use text.Mathlib.TextPositions.{eq_refl}
use aura_server.Release.Bundle.Verified.{HasFile, IsListed}

pub value_eq-str_self : (s : String) → value_eq (str s) (str s) ≡ true
unfolding value_eq
value_eq-str_self s = eq_refl s

pub read_manifest_complete :
    (P : Platform) (root : Tree) (v : Value) (bytes : List ℕ)
    → HasFile root "manifest.json" bytes
    → length bytes ≤ 128 * 1024
    → read_json P.loads bytes ≡ ok v
    → read_manifest P root ≡ ok v
unfolding read_manifest
read_manifest_complete P root v bytes (mode, e) small h = rw (e, read_manifest) (ground arith)

pub check_lock_complete :
    (manifest components : Dict Value)
    → All (λ (field, v). value_eq (get manifest field) v ≡ true) components
    → check_lock manifest components ≡ ok tt
unfolding check_lock
check_lock_complete manifest [] h = refl
check_lock_complete manifest ((field, v) ∷ rest) (h, hs) =
    rw (h, check_lock_complete manifest rest hs)

pub read_file_complete :
    (root : Tree) (name : String) (bytes : List ℕ)
    → HasFile root name bytes
    → read_file root name ≡ ok bytes
unfolding read_file
read_file_complete root name bytes (mode, e) = rw (e, read_file)

-- The names of the files, last first, before those already found.
pub gathered : Tree → List String → List String
gathered [] names = names
gathered ((name, file _ _) ∷ rest) names = gathered rest (name ∷ names)
gathered ((name, _) ∷ rest) names = gathered rest names

contains-gathered :
    (root : Tree) (names : List String) (s : String)
    → contains names s ≡ true
    → contains (gathered root names) s ≡ true
unfolding gathered
contains-gathered [] names s h = h
contains-gathered ((name, file m b) ∷ rest) names s h =
    contains-gathered rest (name ∷ names) s (ground arith)
contains-gathered ((name, folder) ∷ rest) names s h = contains-gathered rest names s h
contains-gathered ((name, link) ∷ rest) names s h = contains-gathered rest names s h
contains-gathered ((name, special) ∷ rest) names s h = contains-gathered rest names s h

pub inventory_complete :
    (files : Dict Value) (root : Tree) (names : List String) (n : ℕ)
    → All (IsListed files) root
    → inventory root names n ≡ ok (gathered root names, n + total_size root)
unfolding inventory gathered total_size
inventory_complete files [] names n h = ap (λ t. ok (names, t)) (omega arith)
inventory_complete files ((name, file m b) ∷ rest) names n (h, hs) =
    rw
      (
        (member_name-eq-ok name name).1 (refl, h.0),
        inventory_complete files rest (name ∷ names) (n + length b) hs,
      )
      (ap (λ t. ok (gathered rest (name ∷ names), t)) (omega arith))
inventory_complete files ((name, folder) ∷ rest) names n (h, hs) =
    inventory_complete files rest names n hs
inventory_complete files ((name, link) ∷ rest) names n (h, hs) = absurd h
inventory_complete files ((name, special) ∷ rest) names n (h, hs) = absurd h

-- Only names of files are gathered.
pub gathered-listed :
    (files : Dict Value) (root : Tree) (names : List String)
    → All (IsListed files) root
    → all (contains ("manifest.json" ∷ keys files)) names ≡ true
    → all (contains ("manifest.json" ∷ keys files)) (gathered root names) ≡ true
unfolding gathered
gathered-listed files [] names h c = c
gathered-listed files ((name, file m b) ∷ rest) names (h, hs) c =
    gathered-listed files rest (name ∷ names) hs (ground (arith, eq_iff "manifest.json" name))
gathered-listed files ((name, folder) ∷ rest) names (h, hs) c =
    gathered-listed files rest names hs c
gathered-listed files ((name, link) ∷ rest) names (h, hs) c = absurd h
gathered-listed files ((name, special) ∷ rest) names (h, hs) c = absurd h

-- What the rest gathers, it gathers after any first entry.
gathered-cons :
    (j : String) (node : Node) (rest : Tree) (names : List String) (name : String)
    → ((ns : List String) → contains (gathered rest ns) name ≡ true)
    → contains (gathered ((j, node) ∷ rest) names) name ≡ true
unfolding gathered
gathered-cons j (file m b) rest names name h = h (j ∷ names)
gathered-cons j folder rest names name h = h names
gathered-cons j link rest names name h = h names
gathered-cons j special rest names name h = h names

-- Every file is gathered.
pub gathered-file :
    (root : Tree) (names : List String) (name : String) (bytes : List ℕ)
    → HasFile root name bytes
    → contains (gathered root names) name ≡ true
unfolding gathered lookup
gathered-file [] names name bytes (m, e) = cc
gathered-file ((j, node) ∷ rest) names name bytes (m, e) = elim (Bool-cases (j == name)) [
  | inl same ↦
      let found : node ≡ file m bytes = ground arith in
      rw (found, gathered) (contains-gathered rest (j ∷ names) name (rw same))
  | inr differs ↦
      gathered-cons j node rest names name
        (λ ns. gathered-file rest ns name bytes (m, ground arith))
]
