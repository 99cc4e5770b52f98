-- ===== src/Release/Archive/Extract.antt =====
-- What `extract` has done when it ends well: each member became one file, and nothing else did.
use aura_server.Base.{
  ℕ, ◌+◌, ◌≤◌, ◌≡◌, refl, ap, ◌∙◌, ◌⊎◌, inl, inr, String, true, false, not, some, List, [], ◌∷◌,
  length, All, nat_eq, string_eq, contains, ok, bind-eq-ok, raise_if-then, ok-injective,
  invalid_release, arith,
}
use text.Mathlib.TextEquality.{eq_iff}
use aura_server.Base.Dict.{lookup}
use aura_server.Json.{magnitude}
use aura_server.Release.Member.{member_name}
use aura_server.Release.Tree.{Tree, Node, file, max_expanded, max_files}
use aura_server.Release.Archive.{
  TarMember, Stream, done, broken, next, is_regular, proc_member, file_mode, extract_member,
  extract,
}
use aura_server.Json.Unique.{Distinct}
use aura_server.Release.Archive.Members.{
  members, Among, stated_size, IsFileOf, IsPlainMember, IsRound, IsRound-of_ok,
}

abbrev pub names : List TarMember → List String
names [] = []
names (m ∷ ms) = m.name ∷ names ms

-- The loop from a state: the names seen, the bytes counted, the directory so far.
pub record IsExtracted (ms : List TarMember) (seen : List String) (total : ℕ) (t t' : Tree)
    : Type 0 where
  pub plain : All IsPlainMember ms
  pub unseen : All (λ m. contains seen m.name ≡ false) ms
  pub distinct : Distinct (names ms)
  pub within : total + stated_size ms ≤ max_expanded
  pub few : length ms + length seen ≤ max_files
  pub files : All (λ m. (bytes : List ℕ) × IsFileOf t' m bytes) ms
  pub kept : (k : String) (v : Node) → lookup k t ≡ some v → lookup k t' ≡ some v
  pub new :
      (k : String) (mode : ℕ) (b : List ℕ)
      → lookup k t' ≡ some (file mode b)
      → (lookup k t ≡ some (file mode b))
        ⊎ ((m : TarMember) × Among m ms
            × (m.name ≡ k)
            × (m.content ≡ some b)
            × (file_mode m.name ≡ mode))

unseen-distinct :
    (name : String) (seen : List String) (ms : List TarMember)
    → All (λ (m : TarMember). contains (name ∷ seen) m.name ≡ false) ms
    → (contains (names ms) name ≡ false) × All (λ (m : TarMember). contains seen m.name ≡ false) ms
unseen-distinct name seen [] h = (refl, tt)
unseen-distinct name seen (m ∷ ms) (h, hs) =
    let (a, b) = unseen-distinct name seen ms hs in
    (ground (arith, eq_iff name m.name, eq_iff m.name name), (ground arith, b))

IsExtracted-cons :
    (m : TarMember) (ms : List TarMember) (seen : List String) (total : ℕ) (t u t' : Tree)
    → IsRound m seen total t u
    → IsExtracted ms (m.name ∷ seen) (total + magnitude m.size) u t'
    → IsExtracted (m ∷ ms) seen total t t'
IsExtracted-cons m ms seen total t u t' r x =
    let (apart, others) = unseen-distinct m.name seen ms x.unseen in
    record {
      plain = (r.plain, x.plain);
      unseen = (r.unseen, others);
      distinct = (apart, x.distinct);
      within = omega (arith, x.within);
      few = omega (arith, x.few);
      files = ((r.bytes, (r.written.0, x.kept m.name _ r.written.1)), x.files);
      kept = λ k v e. x.kept k v (r.kept k v e);
      new = λ k mode b e. elim (x.new k mode b e) [
        | inr (n, among, same, content, mode') ↦ inr (n, inr among, same, content, mode')
        | inl old ↦ elim (r.new k mode b old) [
          | inl older ↦ inl older
          | inr (same, modes, contents) ↦
              inr (m, inl refl, same, r.written.0 ∙ ap some contents, modes)
        ]
      ];
    }

proc_member-eq-ok :
    (m : TarMember) {r : TarMember}
    → proc_member m ≡ ok r
    → (is_regular m.kind ≡ true) × (proc_member m ≡ ok m)
unfolding proc_member
proc_member-eq-ok m h =
    let (regular, g) =
      raise_if-then (not (is_regular m.kind))
        (invalid_release "Only regular USTAR release members permitted") _ h in
    let (name, e, _) = bind-eq-ok (member_name m.name) _ g in
    (ground (arith, regular), rw (regular, e))

extract-IsExtracted :
    (s : Stream) (seen : List String) (total : ℕ) (t t' : Tree)
    → total ≤ max_expanded
    → length seen ≤ max_files
    → extract s seen total t ≡ ok t'
    → IsExtracted (members s) seen total t t'
unfolding extract
extract-IsExtracted done seen total t t' a b h =
    let same : t ≡ t' = ok-injective h in
    record {
      plain = tt;
      unseen = tt;
      distinct = tt;
      within = omega (arith, a);
      few = omega (arith, b);
      files = tt;
      kept = λ k v e. rw (← same) e;
      new = λ k mode b e. inl (rw same e);
    }
extract-IsExtracted broken seen total t t' a b h = cc
extract-IsExtracted (next m rest) seen total t t' a b h =
    let (_, e, _) = bind-eq-ok (proc_member m) _ h in
    let (regular, e') = proc_member-eq-ok m e in
    let g = rw e' at h in
    let (u, first, more) = bind-eq-ok (extract_member m seen total t) _ g in
    let r = IsRound-of_ok m seen total t u regular first in
    IsExtracted-cons m (members rest) seen total t u t' r
      (extract-IsExtracted rest (m.name ∷ seen) (total + magnitude m.size) u t' r.within r.few more)

-- The archive was read to its end.
abbrev pub IsWhole : Stream → Type 0
IsWhole done = Unit
IsWhole broken = ⊥
IsWhole (next m rest) = IsWhole rest

extract-IsWhole :
    (s : Stream) (seen : List String) (total : ℕ) (t t' : Tree)
    → extract s seen total t ≡ ok t'
    → IsWhole s
unfolding extract
extract-IsWhole done seen total t t' h = tt
extract-IsWhole broken seen total t t' h = cc
extract-IsWhole (next m rest) seen total t t' h =
    let (n, _, g) = bind-eq-ok (proc_member m) _ h in
    let (u, _, more) = bind-eq-ok (extract_member n seen total t) _ g in
    extract-IsWhole rest _ _ u t' more

-- Unpacking into an empty directory, where it ends well, has read the archive to its end. Every
-- member is a regular file under an acceptable name that is no dot, with a size that is no negative
-- number; no name comes twice, there are at most `max_files` members, and their stated sizes add up
-- to at most `max_expanded`. Each member's bytes stand under its name with its mode, and every file
-- of the directory is that of a member.
pub extract_lem :
    (s : Stream) (t : Tree)
    → extract s [] 0 [] ≡ ok t
    → IsWhole s × IsExtracted (members s) [] 0 [] t
extract_lem s t h =
    (extract-IsWhole s [] 0 [] t h, extract-IsExtracted s [] 0 [] t (omega arith) (omega arith) h)
