-- ===== src/Release/Pack.antt =====
-- `pack` of release.py.
pub mod Whole
pub mod Ascending
pub mod Reproducible
pub mod Sizes
pub mod Extracts
pub mod Staged
pub mod RoundTrip
mod Tests
use aura_server.Base.{
  ℕ, String, Bool, true, false, not, ◌&&◌, Option, none, some, List, [], ◌∷◌, ◌==◌, nat_eq,
  string_eq, all, ltb, length, codes, if◌then◌else◌, Error, Result, ok, err, ◌>>=◌, os_error,
  invalid_release,
}
use aura_server.Base.Dict.{Dict, keys, lookup, insert}
use aura_server.Json.{Value, as_object}
use aura_server.Release.Tree.{Tree, Platform, max_archive}
use aura_server.Release.Bundle.{get, read_file, verify_bundle}
use aura_server.Release.Disk.{Disk, Entry, plain, has_parents}
use aura_server.Release.Archive.{file_mode}
use aura_server.Release.Disk.Effect.{Outcome}

-- What is set of a `TarInfo`, with the file's bytes.
pub record Packed : Type 0 where
  pub name : String
  pub mode : ℕ
  pub mtime : ℕ
  pub bytes : List ℕ

-- The order of Python's `sorted` on texts.
abbrev pub precedes : List ℕ → List ℕ → Bool
precedes [] _ = true
precedes (x ∷ xs) [] = false
precedes (x ∷ xs) (y ∷ ys) =
    let rest = precedes xs ys in if ltb x y then true else if x == y then rest else false

-- One more element of a sorted list without duplicates.
unfoldable pub insert_name : String → List String → List String
insert_name x [] = x ∷ []
insert_name x (y ∷ ys) =
    let rest = insert_name x ys in
    if x == y then y ∷ ys else if precedes (codes x) (codes y) then x ∷ y ∷ ys else y ∷ rest

-- `sorted(set(names))`
unfoldable pub sorted_set : List String → List String
sorted_set [] = []
sorted_set (x ∷ xs) = insert_name x (sorted_set xs)

unfoldable pub packed_names : Dict Value → Result (List String)
packed_names manifest = do
  files ← as_object (get manifest "files")
  ok (sorted_set ("manifest.json" ∷ keys files))

unfoldable pub packed : Tree → List String → Result (List Packed)
packed bundle [] = ok []
packed bundle (name ∷ names) = do
  bytes ← read_file bundle name
  rest ← packed bundle names
  ok (record { name = name; mode = file_mode name; mtime = 0; bytes = bytes } ∷ rest)

-- `tarfile` in the USTAR format inside of `gzip`, with the file name and the time of the gzip header,
-- which may raise, for a name that is too long, say; and what is written of the file when an
-- exception ends the writing.
pub record Tar : Type 0 where
  pub encode : String → ℕ → List Packed → Result (List ℕ)
  pub partial : List ℕ

-- `output.open("xb")`
abbrev pub open_new : Disk → String → Option Entry → Result (Unit {0})
open_new d output none = if has_parents d output then ok tt else err (os_error "FileNotFoundError")
open_new d output (some _) = err (os_error "FileExistsError")

abbrev pub finished : Platform → Tar → String → Disk → Result (List ℕ) → Outcome String
finished P tar output d (err e) = record {
  result = err e;
  disk = insert output (plain tar.partial) d;
}
finished P tar output d (ok bytes) = record {
  result =
      if ltb max_archive (length bytes)
      then err (invalid_release "Archive exceeds delivery budget")
      else ok (P.sha256 bytes);
  disk = insert output (plain bytes) d;
}

unfoldable pub pack : Platform → Tar → Tree → String → String → String → Disk → Outcome String
pack P tar bundle output version arch d = elim (verify_bundle P bundle version arch) [
  | err e ↦ record { result = err e; disk = d }
  | ok manifest ↦ elim (open_new d output (lookup output d)) [
    | err e ↦ record { result = err e; disk = d }
    | ok _ ↦ finished P tar output d (
        packed_names manifest >>= λ names.
        packed bundle names >>= λ members. tar.encode "" 0 members)
  ]
]
