-- ===== src/Release/Member.antt =====
-- `member_name` of release.py: the names that an archive and a manifest may hold.
pub mod Parts
pub mod Accepted
mod Tests
use aura_server.Base.{
  ℕ, String, Bool, not, ◌&&◌, ◌||◌, List, [], ◌∷◌, ◌++◌, length, any, ltb, ◌==◌, nat_eq, string_eq,
  list_eq, if◌then◌else◌, codes, split, join, is_alnum, Result, ok, err, invalid_release,
}

-- What `PurePosixPath(name)` keeps of a text: the root that it begins with, and its parts without
-- empty ones and dots.
pub record PosixPath : Type 0 where
  pub root : List ℕ
  pub parts : List (List ℕ)

abbrev pub slash : ℕ
slash = b'/'

abbrev pub dot : List ℕ
dot = b'.' ∷ []

abbrev pub dot_dot : List ℕ
dot_dot = b'.' ∷ b'.' ∷ []

-- `posixpath.splitroot`: exactly two leading slashes are a root of their own.
abbrev pub root_of : List ℕ → List ℕ
root_of (a ∷ b ∷ c ∷ rest) =
    if a == slash
    then (if b == slash && not (c == slash) then slash ∷ slash ∷ [] else slash ∷ [])
    else []
root_of (a ∷ b ∷ []) =
    if a == slash then (if b == slash then slash ∷ slash ∷ [] else slash ∷ []) else []
root_of (a ∷ []) = if a == slash then slash ∷ [] else []
root_of [] = []

-- Empty parts and dots are dropped, wherever they stand; what is left of a root is such a part.
unfoldable pub proper_parts : List (List ℕ) → List (List ℕ)
proper_parts [] = []
proper_parts (p ∷ ps) = let rest = proper_parts ps in if p == [] || p == dot then rest else p ∷ rest

unfoldable pub pure_posix_path : List ℕ → PosixPath
pure_posix_path name = record { root = root_of name; parts = proper_parts (split slash name) }

-- `str(path)`
unfoldable pub path_str : PosixPath → List ℕ
path_str p = let whole = p.root ++ join slash p.parts in if whole == [] then dot else whole

-- `path.parts`: the root is a part.
abbrev pub path_parts : PosixPath → List (List ℕ)
path_parts p = if p.root == [] then p.parts else p.root ∷ p.parts

-- `[a-zA-Z0-9._/-]`
abbrev pub is_member_char : ℕ → Bool
is_member_char c = is_alnum c || c == b'.' || c == b'_' || c == b'/' || c == b'-'

unfoldable pub is_unsafe_name : List ℕ → Bool
is_unsafe_name name =
    let path = pure_posix_path name in
    name == []
    || ltb 240 (length name)
    || not (path.root == [])
    || not (path_str path == name)
    || any (λ p. p == [] || p == dot || p == dot_dot) (path_parts path)
    || any (λ c. not (is_member_char c)) name

unfoldable pub member_name : String → Result String
member_name name =
    if is_unsafe_name (codes name) then err (invalid_release "Unsafe archive member") else ok name
