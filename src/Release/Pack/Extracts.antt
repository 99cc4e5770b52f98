-- ===== src/Release/Pack/Extracts.antt =====
-- `unpack`'s loop on the members that `pack` writes.
use aura_server.Base.{
  ℕ, ◌+◌, ◌≤◌, ◌≡◌, refl, inl, inr, String, true, false, none, some, List, [], ◌∷◌, ◌==◌, string_eq,
  nat_eq, length, contains, codes, All, All-map, Bool-cases, Option-cases, ok, arith, ltb,
}
use text.Mathlib.TextEquality.{eq_iff}
use aura_server.Base.Dict.{Dict, lookup, insert, All-lookup}
use aura_server.Json.{pos}
use aura_server.Json.Unique.{Distinct}
use aura_server.Release.Member.Parts.{IsAccepted}
use aura_server.Release.Member.Accepted.{member_name-eq-ok}
use aura_server.Release.Tree.{
  Tree, Node, file, folder, link, special, total_size, max_expanded, max_files,
}
use aura_server.Release.Bundle.Verified.{HasFile}
use aura_server.Release.Disk.Parents.{parents, mkdirs}
use aura_server.Release.Archive.{
  TarMember, Stream, done, next, proc_member, file_mode, is_folder, create, extract_member, extract,
}
use aura_server.Release.Pack.{Packed}
use aura_server.Release.Pack.Sizes.{byte_count, total_size-insert}
use aura_server.Release.Pack.Whole.{IsMember, member_names}

-- A member as a reader of the USTAR format meets it.
abbrev pub header_of : Packed → TarMember
header_of m = record {
  name = m.name;
  kind = b'0';
  size = pos (length m.bytes);
  sparse = false;
  pax = false;
  content = some m.bytes;
}

abbrev pub stream_of : List Packed → Stream
stream_of [] = done
stream_of (m ∷ ms) = next (header_of m) (stream_of ms)

-- A directory as it stands on disk: above each of its files are directories, and no file is named by
-- the dot.
pub record IsFolder (t : Tree) : Type 0 where
  pub no_dot : lookup "." t ≡ none
  pub above :
      (n : String) (bytes : List ℕ)
      → HasFile t n bytes
      → All (λ p. lookup p t ≡ some folder) (parents n)

module _ {ℓ κ} {V : Type ℓ} (P : String × V → Type κ) where
  All-insert : (k : String) (v : V) (d : Dict V) → P (k, v) → All P d → All P (insert k v d)
  unfolding insert
  All-insert k v [] h hs = (h, tt)
  All-insert k v ((j, w) ∷ d) h (g, gs) = elim (Bool-cases (j == k)) [
    | inl e ↦ rw e (h, gs)
    | inr e ↦ rw e (g, All-insert k v d h gs)
  ]

-- What stands in the staging directory is a directory of the bundle, or a file of it that was seen.
abbrev pub IsCopied : Tree → List String → String × Node → Type 0
IsCopied bundle seen (k, folder) = lookup k bundle ≡ some folder
IsCopied bundle seen (k, file _ bytes) = HasFile bundle k bytes × (contains seen k ≡ true)
IsCopied bundle seen (k, _) = ⊥

still_unseen :
    (n : String) (seen : List String) (ms : List Packed)
    → contains (member_names ms) n ≡ false
    → All (λ m. contains seen m.name ≡ false) ms
    → All (λ m. contains (n ∷ seen) m.name ≡ false) ms
still_unseen n seen [] c h = tt
still_unseen n seen (m ∷ ms) c (h, hs) = (
  ground (arith, c, h, eq_iff n m.name, eq_iff m.name n),
  still_unseen n seen ms (ground (arith, c)) hs,
)

module _ (bundle : Tree) where
  IsCopied-folder :
      (seen : List String) (p : String) (v : Node)
      → IsCopied bundle seen (p, v)
      → lookup p bundle ≡ some folder
      → is_folder v ≡ true
  IsCopied-folder seen p folder c h = refl
  IsCopied-folder seen p (file mode bytes) ((_, there), _) h = absurd (cc (there, h))
  IsCopied-folder seen p link c h = absurd c
  IsCopied-folder seen p special c h = absurd c

  IsCopied-seen :
      (seen : List String) (n : String) (v : Node) (bytes : List ℕ)
      → IsCopied bundle seen (n, v)
      → HasFile bundle n bytes
      → contains seen n ≡ true
  IsCopied-seen seen n folder bytes c (_, there) = absurd (cc (there, c))
  IsCopied-seen seen n (file _ _) bytes c h = c.1
  IsCopied-seen seen n link bytes c h = absurd c
  IsCopied-seen seen n special bytes c h = absurd c

  IsCopied-later :
      (n : String) (seen : List String) (e : String × Node)
      → IsCopied bundle seen e
      → IsCopied bundle (n ∷ seen) e
  IsCopied-later n seen (k, folder) c = c
  IsCopied-later n seen (k, file _ _) c = (c.0, ground (arith, c.1))
  IsCopied-later n seen (k, link) c = c
  IsCopied-later n seen (k, special) c = c

  mkdirs-IsCopied :
      (seen ps : List String) (t : Tree)
      → All (λ p. lookup p bundle ≡ some folder) ps
      → All (IsCopied bundle seen) t
      → (t' : Tree) × (mkdirs is_folder folder ps t ≡ ok t')
        × All (IsCopied bundle seen) t'
        × (total_size t' ≡ total_size t)
  unfolding mkdirs
  mkdirs-IsCopied seen [] t h c = (t, refl, c, refl)
  mkdirs-IsCopied seen (p ∷ ps) t (h, hs) c = elim (Option-cases (lookup p t)) [
    | inl free ↦
        let (t', made, c', size) =
          mkdirs-IsCopied seen ps (insert p folder t) hs
            (All-insert (IsCopied bundle seen) p folder t h c) in
        (t', rw (free, mkdirs) made, c', omega (arith, size, total_size-insert p folder t free))
    | inr (v, taken) ↦
        let is : is_folder v ≡ true =
          IsCopied-folder seen p v (All-lookup (IsCopied bundle seen) p t c taken) h in
        let (t', made, c', size) = mkdirs-IsCopied seen ps t hs c in
        (t', rw (taken, mkdirs, is) made, c', size)
  ]

  not_dot :
      (n : String) {v : Node}
      → lookup "." bundle ≡ none
      → lookup n bundle ≡ some v
      → (n == ".") ≡ false
  not_dot n free there = elim (Bool-cases (n == ".")) [
    | inr e ↦ e
    | inl e ↦ absurd (cc (free, rw ((eq_iff n ".").0 e) at there))
  ]

  module _ (f : IsFolder bundle) where
    -- One round of the loop.
    extract_member-IsCopied :
        (m : Packed) (seen : List String) (total : ℕ) (t : Tree)
        → IsMember bundle m
        → IsAccepted (codes m.name)
        → contains seen m.name ≡ false
        → total + length m.bytes ≤ max_expanded
        → length (m.name ∷ seen) ≤ max_files
        → All (IsCopied bundle seen) t
        → (t' : Tree) × (extract_member (header_of m) seen total t ≡ ok t')
          × All (IsCopied bundle (m.name ∷ seen)) t'
          × (total_size t' ≡ total_size t + length m.bytes)
    unfolding extract_member create
    extract_member-IsCopied m seen total t (there, _, _) accepted unseen within few c =
        let (below, made, c', size) =
          mkdirs-IsCopied seen (parents m.name) t (f.above m.name m.bytes there) c in
        let free : lookup m.name below ≡ none = elim (Option-cases (lookup m.name below)) [
          | inl e ↦ e
          | inr (v, e) ↦ absurd (
              cc (
                unseen,
                IsCopied-seen seen m.name v m.bytes
                    (All-lookup (IsCopied bundle seen) m.name below c' e) there,
              ))
        ] in
        let no_dot : (m.name == ".") ≡ false = not_dot m.name f.no_dot there.1 in
        let big : ltb max_expanded (total + length m.bytes) ≡ false = ground (arith, within) in
        let many : ltb max_files (length (m.name ∷ seen)) ≡ false = ground (arith, few) in
        (
          insert m.name (file (file_mode m.name) m.bytes) below,
          rw
              (
                (member_name-eq-ok m.name m.name).1 (refl, accepted),
                unseen,
                big,
                many,
                made,
                free,
                create,
                no_dot,
              )
              refl,
          All-insert (IsCopied bundle (m.name ∷ seen)) m.name _ below
              (there, ground (arith, eq_iff m.name m.name))
              (All-map (IsCopied bundle seen) _ (IsCopied-later m.name seen) below c'),
          omega
              (arith, size, total_size-insert m.name (file (file_mode m.name) m.bytes) below free),
        )

    -- The loop, from any state.
    pub extract-IsCopied :
        (ms : List Packed) (seen : List String) (total : ℕ) (t : Tree)
        → All (IsMember bundle) ms
        → All (λ m. IsAccepted (codes m.name)) ms
        → All (λ m. contains seen m.name ≡ false) ms
        → Distinct (member_names ms)
        → total + byte_count ms ≤ max_expanded
        → length ms + length seen ≤ max_files
        → All (IsCopied bundle seen) t
        → (t' : Tree) × (seen' : List String) × (extract (stream_of ms) seen total t ≡ ok t')
          × All (IsCopied bundle seen') t'
          × (total_size t' ≡ total_size t + byte_count ms)
    unfolding extract proc_member
    extract-IsCopied [] seen total t h a u d within few c = (t, seen, refl, c, omega arith)
    extract-IsCopied (m ∷ ms) seen total t (h, hs) (a, as') (u, us) (d, ds) within few c =
        let (t', one, c', size) =
          extract_member-IsCopied m seen total t h a u (omega (arith, within)) (omega (arith, few))
            c in
        let (t'', seen', rest, c'', size') =
          extract-IsCopied ms (m.name ∷ seen) (total + length m.bytes) t' hs as'
            (still_unseen m.name seen ms d us) ds (omega (arith, within)) (omega (arith, few)) c' in
        (
          t'',
          seen',
          rw ((member_name-eq-ok m.name m.name).1 (refl, a), one) rest,
          c'',
          omega (arith, size, size'),
        )
