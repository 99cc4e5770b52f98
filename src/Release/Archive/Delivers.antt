-- ===== src/Release/Archive/Delivers.antt =====
-- What a good `unpack` has put on disk, in terms of the archive, the manifest and the lock.
use aura_server.Base.{
  ℕ, ◌≡◌, ◌≢◌, sym, ◌∙◌, true, ok-injective, refl, String, string_eq, none, some, List, [], ok,
  arith,
}
use text.Mathlib.TextEquality.{eq_iff}
use aura_server.Base.Dict.{Dict, lookup, lookup-insert, lookup-insert_self}
use aura_server.Json.{Value}
use aura_server.Release.Tree.{Tree, Platform}
use aura_server.Release.Bundle.Verified.{IsVerified}
use aura_server.Release.Bundle.Sound.{verify_bundle-IsVerified}
use aura_server.Release.Disk.{Disk, directory, is_directory, has_parents}
use aura_server.Release.Disk.Effect.{Others}
use aura_server.Release.Disk.Parents.{parents, mkdirs}
use aura_server.Release.Archive.{Stream, read_plain}
use aura_server.Release.Archive.Install.{unpack}
use aura_server.Release.Archive.Members.{members}
use aura_server.Release.Archive.Extract.{IsExtracted, IsWhole, extract_lem}
use aura_server.Release.Archive.Unpack.{unpack-IsInstalled}

-- The directory `staging` stands at the destination, and it is verified. `bytes` is what the archive
-- was for its digest, and `read` what it was for its members.
pub record IsDelivered (P : Platform) (open_tar : List ℕ → Stream) (others : Others)
    (archive destination expected_sha version arch : String) (d after : Disk) : Type 0 where
  pub bytes : List ℕ
  pub staging : Tree
  pub manifest : Dict Value
  pub files : Dict Value
  pub ready : Disk
  pub there : read_plain d archive ≡ ok bytes
  pub digest : P.sha256 bytes ≡ expected_sha
  pub was_free : lookup destination d ≡ none
  pub made : mkdirs is_directory (directory []) (parents destination) d ≡ ok ready
  pub read : List ℕ
  pub again : read_plain (others.meanwhile ready) archive ≡ ok read
  pub same :
      lookup archive (others.meanwhile ready) ≡ lookup archive d → P.sha256 read ≡ expected_sha
  pub still_free : lookup destination (others.later (others.meanwhile ready)) ≡ none
  pub placed : has_parents (others.later (others.meanwhile ready)) destination ≡ true
  pub whole : IsWhole (open_tar read)
  pub extracted : IsExtracted (members (open_tar read)) [] 0 [] staging
  pub verified : IsVerified P staging version arch manifest files
  pub delivered : lookup destination after ≡ some (directory staging)
  pub elsewhere :
      (k : String)
      → k ≢ destination
      → lookup k after ≡ lookup k (others.later (others.meanwhile ready))

read_plain_again :
    (archive : String) (d d' : Disk)
    → lookup archive d' ≡ lookup archive d
    → read_plain d' archive ≡ read_plain d archive
unfolding read_plain
read_plain_again archive d d' same = rw (read_plain, same) refl

-- A run of `unpack` that succeeds: when the archive was first read it had the expected digest, and
-- so has what was read again, where the other processes had left its path alone; the second time it was
-- read to its end, each
-- member within the budgets and under its own name, into one directory; that directory is verified
-- for the version and the architecture; it stands at the destination, where nothing stood before the
-- run nor just before the rename, with every directory above it there; and every other path is as the
-- other processes left it.
pub unpack-IsDelivered :
    (P : Platform) (open_tar : List ℕ → Stream) (others : Others)
    (archive destination expected_sha version arch : String) (d : Disk)
    → (unpack P open_tar others archive destination expected_sha version arch d).result ≡ ok tt
    → IsDelivered P open_tar others archive destination expected_sha version arch d
        (unpack P open_tar others archive destination expected_sha version arch d).disk
unpack-IsDelivered P open_tar others archive destination expected_sha version arch d h =
    let i =
      unpack-IsInstalled P open_tar others archive destination expected_sha version arch d h in
    let (whole, extracted) = extract_lem (open_tar i.read) i.staging i.extracted in
    let (files, verified) = verify_bundle-IsVerified P i.staging version arch i.verified in
    record {
      bytes = i.bytes;
      staging = i.staging;
      manifest = i.manifest;
      files = files;
      ready = i.ready;
      there = i.admitted.there;
      digest = i.admitted.digest;
      was_free = i.admitted.free;
      made = i.made;
      read = i.read;
      again = i.again;
      same = λ left.
          let one : i.read ≡ i.bytes = ok-injective (
            sym i.again
            ∙ (read_plain_again archive d (others.meanwhile i.ready) left ∙ i.admitted.there)) in
          rw one i.admitted.digest;
      still_free = i.still_free;
      placed = i.placed;
      whole = whole;
      extracted = extracted;
      verified = verified;
      delivered =
          rw (← i.published)
            (lookup-insert_self destination _ (others.later (others.meanwhile i.ready)));
      elsewhere = λ k apart.
          rw (← i.published, lookup-insert) (ground (arith, apart, eq_iff destination k));
    }
