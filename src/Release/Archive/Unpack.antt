-- ===== src/Release/Archive/Unpack.antt =====
-- `unpack` publishes a verified directory under a free name, or nothing.
use aura_server.Base.{
  ℕ, ◌≡◌, refl, sym, ap, inl, inr, String, true, false, not, ◌||◌, ◌&&◌, Bool, Bool-cases, Option,
  none, some, List, [], length, ltb, ◌==◌, string_eq, Result, ok, bind-eq-ok, raise_if-then,
  ok-injective, arith,
}
use mathlib.Core.Path.{subst, ◌∙◌}
use text.Mathlib.TextEquality.{eq_iff}
use aura_server.Base.Dict.{Dict, lookup, insert}
use aura_server.Json.{Value}
use aura_server.Release.Tree.{Tree, Platform, max_archive}
use aura_server.Release.Bundle.{is_sha256, verify_bundle}
use aura_server.Release.Disk.{
  Disk, Entry, plain, directory, symlink, entry_exists, entry_is_symlink, exists, is_symlink,
  is_directory, has_parents, rename_to, rename_directory, dangling, to_folder, to_file,
}
use aura_server.Release.Disk.Parents.{parents, mkdirs}
use aura_server.Release.Disk.Effect.{
  Others, Outcome, Effect, ◌>>=◌, ◌>>◌, look, interfere, call, make_parents, make_parents_made,
  action-ok, call-ok,
}
use aura_server.Release.Archive.{Stream, extract, read_plain, admit, stage, publish}
use aura_server.Release.Archive.Install.{unpack}

-- The archive that was admitted.
pub record IsAdmitted (P : Platform) (d : Disk) (archive destination expected_sha : String)
    (bytes : List ℕ) : Type 0 where
  pub hexadecimal : is_sha256 expected_sha ≡ true
  pub there : read_plain d archive ≡ ok bytes
  pub small : ltb max_archive (length bytes) ≡ false
  pub digest : P.sha256 bytes ≡ expected_sha
  pub free : lookup destination d ≡ none

pub free_of : (o : Option Entry) → (entry_exists o || entry_is_symlink o) ≡ false → o ≡ none
free_of none h = refl
free_of (some (plain b)) h = cc
free_of (some (directory t)) h = cc
free_of (some (symlink dangling)) h = cc
free_of (some (symlink to_folder)) h = cc
free_of (some (symlink (to_file b))) h = cc

admit-eq-ok :
    (P : Platform) (d : Disk) (archive destination expected_sha : String) (bytes : List ℕ)
    → admit P d archive destination expected_sha ≡ ok bytes
    → IsAdmitted P d archive destination expected_sha bytes
unfolding admit exists is_symlink
admit-eq-ok P d archive destination expected_sha result h =
    let (hex, g1) = raise_if-then (not (is_sha256 expected_sha)) _ _ h in
    let (bytes, there, g2) = bind-eq-ok (read_plain d archive) _ g1 in
    let (sum, g3) =
      raise_if-then (ltb max_archive (length bytes) || not (P.sha256 bytes == expected_sha)) _ _
        g2 in
    let (free, g4) =
      raise_if-then (entry_exists (lookup destination d) || entry_is_symlink (lookup destination d))
        _ _ g3 in
    subst (IsAdmitted P d archive destination expected_sha) (ok-injective g4) (record {
      hexadecimal = ground (arith, hex);
      there = there;
      small = ground (arith, sum);
      digest = ground (arith, sum, eq_iff (P.sha256 bytes) expected_sha);
      free = free_of (lookup destination d) free;
    })

renamed :
    (staging : Tree) (destination : String) (d d' : Disk) (o : Option Entry)
    → lookup destination d ≡ o
    → exists d destination ≡ false
    → rename_directory staging destination d ≡ ok d'
    → (o ≡ none) × (insert destination (directory staging) d ≡ d')
unfolding rename_directory exists
renamed staging destination d d' none e x h = (refl, ok-injective (rw (e, rename_directory) at h))
renamed staging destination d d' (some (plain b)) e x h = absurd (cc (rw e at x))
renamed staging destination d d' (some (directory t)) e x h = absurd (cc (rw e at x))
renamed staging destination d d' (some (symlink dangling)) e x h =
    absurd (cc (rw (e, rename_directory) at h))
renamed staging destination d d' (some (symlink to_folder)) e x h = absurd (cc (rw e at x))
renamed staging destination d d' (some (symlink (to_file b))) e x h = absurd (cc (rw e at x))

-- The temporary directory and the directories above the new name are there.
pub rename_to-ok :
    (leaves : Bool) (path : String) (d d' : Disk) (moved : Result Disk)
    → rename_to leaves path d moved ≡ ok d'
    → (has_parents d path ≡ true) × (moved ≡ ok d')
rename_to-ok leaves path d d' moved h = elim (Bool-cases (leaves && has_parents d path)) [
  | inl e ↦ (ground (arith, e), rw e at h)
  | inr e ↦ absurd (cc (rw e at h))
]

publish_lem :
    (leaves : Bool) (staging : Tree) (destination : String) (d d' : Disk)
    → publish leaves staging destination d ≡ ok d'
    → (lookup destination d ≡ none)
      × (has_parents d destination ≡ true)
      × (insert destination (directory staging) d ≡ d')
unfolding publish
publish_lem leaves staging destination d d' h =
    let (absent, g) = raise_if-then (exists d destination) _ _ h in
    let (placed, moved) = rename_to-ok leaves destination d d' _ g in
    let (free, same) = renamed staging destination d d' (lookup destination d) refl absent moved in
    (free, placed, same)

module _ (P : Platform) (open_tar : List ℕ → Stream) (others : Others)
    (archive destination expected_sha version arch : String) (d : Disk) where
  abbrev run : Outcome (Unit {0})
  run = unpack P open_tar others archive destination expected_sha version arch d

  -- What a good run has done. `ready` is the disk with the parent directories made, `bytes` what the
  -- archive was for its digest, and `read` what it was for its members.
  pub record IsInstalled : Type 0 where
    pub bytes : List ℕ
    pub admitted : IsAdmitted P d archive destination expected_sha bytes
    pub ready : Disk
    pub made : mkdirs is_directory (directory []) (parents destination) d ≡ ok ready
    pub read : List ℕ
    pub again : read_plain (others.meanwhile ready) archive ≡ ok read
    pub staging : Tree
    pub extracted : extract (open_tar read) [] 0 [] ≡ ok staging
    pub manifest : Dict Value
    pub verified : verify_bundle P staging version arch ≡ ok manifest
    pub still_free : lookup destination (others.later (others.meanwhile ready)) ≡ none
    pub placed : has_parents (others.later (others.meanwhile ready)) destination ≡ true
    pub published :
        insert destination (directory staging) (others.later (others.meanwhile ready)) ≡ run.disk

  -- The calls from the extraction on.
  abbrev pub deliver : List ℕ → Effect (Unit {0})
  deliver bytes = do
    staging ← look (λ _. stage P open_tar bytes version arch)
    interfere others.later
    call (publish others.leaves staging destination)

  -- The calls after the directories are made.
  abbrev pub finish : Effect (Unit {0})
  finish = do interfere others.meanwhile; bytes ← look (λ d. read_plain d archive); deliver bytes

  deliver-ok :
      (bytes : List ℕ) (before : Disk)
      → (deliver bytes before).result ≡ ok tt
      → (staging : Tree) × (stage P open_tar bytes version arch ≡ ok staging)
        × (publish others.leaves staging destination (others.later before)
            ≡ ok (deliver bytes before).disk)
  deliver-ok bytes before h =
      let (staging, s, g, same) =
        action-ok (look (λ _. stage P open_tar bytes version arch))
          (λ staging.
            interfere others.later >>= λ _. call (publish others.leaves staging destination))
          before h in
      (
        staging,
        s,
        rw same (call-ok (publish others.leaves staging destination) (others.later before) g),
      )

  finish-ok :
      (ready : Disk)
      → (finish ready).result ≡ ok tt
      → (bytes : List ℕ) × (read_plain (others.meanwhile ready) archive ≡ ok bytes)
        × ((deliver bytes (others.meanwhile ready)).result ≡ ok tt)
        × (finish ready ≡ deliver bytes (others.meanwhile ready))
  finish-ok ready h =
      action-ok (look (λ d. read_plain d archive)) deliver (others.meanwhile ready) h

  -- A run that succeeds: each call in turn.
  run-ok :
      run.result ≡ ok tt
      → (bytes : List ℕ) × (ready : Disk) × (admit P d archive destination expected_sha ≡ ok bytes)
        × (mkdirs is_directory (directory []) (parents destination) d ≡ ok ready)
        × ((finish ready).result ≡ ok tt)
        × (run ≡ finish ready)
  unfolding unpack
  run-ok h =
      let (bytes, p, g, same) =
        action-ok (look (λ d. admit P d archive destination expected_sha))
          (λ _. make_parents others.refuses (parents destination) >>= λ _. finish) d h in
      let (_, q, g', same') =
        action-ok (make_parents others.refuses (parents destination)) (λ _. finish) d g in
      (
        bytes,
        (make_parents others.refuses (parents destination) d).disk,
        p,
        make_parents_made others.refuses (parents destination) d q,
        g',
        same ∙ same',
      )

-- A run that succeeds has admitted an archive with the expected digest, has read it again to a directory
-- that `verify_bundle` accepts, and has put that directory under the destination, where nothing stood
-- at the start of the run nor just before the rename; all else is as the other processes left it.
pub unpack-IsInstalled :
    (P : Platform) (open_tar : List ℕ → Stream) (others : Others)
    (archive destination expected_sha version arch : String) (d : Disk)
    → (unpack P open_tar others archive destination expected_sha version arch d).result ≡ ok tt
    → IsInstalled P open_tar others archive destination expected_sha version arch d
unfolding stage
unpack-IsInstalled P open_tar others archive destination expected_sha version arch d h =
    let (bytes, ready, p, q, g, same) =
      run-ok P open_tar others archive destination expected_sha version arch d h in
    let (read, again, g', same') =
      finish-ok P open_tar others archive destination expected_sha version arch d ready g in
    let (staging, s, published) =
      deliver-ok P open_tar others archive destination expected_sha version arch d read
        (others.meanwhile ready) g' in
    let (tree, x, s') = bind-eq-ok (extract (open_tar read) [] 0 []) _ s in
    let (manifest, v, one) = bind-eq-ok (verify_bundle P tree version arch) _ s' in
    let (free, placed, put_there) = publish_lem others.leaves staging destination _ _ published in
    record {
      bytes = bytes;
      admitted = admit-eq-ok P d archive destination expected_sha bytes p;
      ready = ready;
      made = q;
      read = read;
      again = again;
      staging = staging;
      extracted = x ∙ one;
      manifest = manifest;
      verified = rw (← ok-injective one) v;
      still_free = free;
      placed = placed;
      published = put_there ∙ sym (ap (λ o. o.disk) (same ∙ same'));
    }
