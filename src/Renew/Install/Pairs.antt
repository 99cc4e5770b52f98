-- ===== src/Renew/Install/Pairs.antt =====
-- The pairs of files that `owner_files` of renew.py passes through.
use aura_server.Base.{
  ℕ, ◌≡◌, refl, sym, ◌∙◌, ap, ◌≢◌, ◌⊎◌, String, Option, none, some, List, [], ◌∷◌, Result, ok,
  bind-eq-ok, ok-injective, arith,
}
use mathlib.Core.Path.{subst}
use text.Mathlib.TextEquality.{eq_iff}
use aura_server.Base.Dict.{Dict, lookup, insert, lookup-insert, lookup-insert_self}
use aura_server.Renew.State.{
  File, regular, Owner, bytes_of, read_in, found, to_live, to_backup, put_in, put, make_backup_at,
  unlink_in, unlink_backup, rmdir_backup_at,
}
use aura_server.Renew.Install.Copy.{Files, On}

-- The bytes of the certificate and of the key.
abbrev pub Pair : Result (List ℕ) → Result (List ℕ) → Dict File → Type 0
Pair cert key live =
    (bytes_of (lookup "owner.crt" live) ≡ cert) × (bytes_of (lookup "owner.key" live) ≡ key)

pub put_in-lookup :
    (name other : String) (b : List ℕ) (o : Option (Dict (List ℕ))) (files : Dict (List ℕ))
    → put_in name b o ≡ ok files
    → (read_in name (some files) ≡ ok b)
      × (name ≢ other → read_in other (some files) ≡ read_in other o)
put_in-lookup name other b none files e = absurd (cc e)
put_in-lookup name other b (some old) files e =
    let same : files ≡ insert name b old = sym (ok-injective e) in
    (
      rw (same, lookup-insert_self name b old) refl,
      λ n. ap found (
          ap (lookup other) same
          ∙ ground (arith, lookup-insert name other b old, eq_iff name other, n)),
    )

module _ (cert key old_cert old_key : Result (List ℕ)) where
  abbrev pub IsOld : Files
  IsOld live backup staged = Pair old_cert old_key live

  abbrev pub IsSavedCert : Files
  IsSavedCert live backup staged =
      Pair old_cert old_key live × (read_in "owner.crt" backup ≡ old_cert)

  -- The old pair is in the directory and in the backup.
  abbrev pub IsSaved : Files
  IsSaved live backup staged =
      Pair old_cert old_key live
      × (read_in "owner.crt" backup ≡ old_cert)
      × (read_in "owner.key" backup ≡ old_key)

  -- The new certificate stands beside the old key, and the old pair is in the backup.
  abbrev pub IsHalf : Files
  IsHalf live backup staged =
      Pair cert old_key live
      × (read_in "owner.crt" backup ≡ old_cert)
      × (read_in "owner.key" backup ≡ old_key)

  abbrev pub IsNew : Files
  IsNew live backup staged = Pair cert key live

  -- The old pair, or the new one, or the old one in the backup.
  abbrev pub IsRecoverable : Files
  IsRecoverable live backup staged =
      IsOld live backup staged ⊎ IsHalf live backup staged ⊎ IsNew live backup staged

  pub IsSavedCert-cert :
      (uid : ℕ) (s s' : Owner) (b : List ℕ)
      → On IsOld s
      → old_cert ≡ ok b
      → put uid (to_backup "owner.crt") b s ≡ ok s'
      → On IsSavedCert s'
  IsSavedCert-cert uid s s' b p f e =
      let (files, made, same) = bind-eq-ok (put_in "owner.crt" b s.backup) _ e in
      let here = put_in-lookup "owner.crt" "owner.key" b s.backup files made in
      subst (On IsSavedCert) (ok-injective same) (p, here.0 ∙ sym f)

  pub IsSaved-key :
      (uid : ℕ) (s s' : Owner) (b : List ℕ)
      → On IsSavedCert s
      → old_key ≡ ok b
      → put uid (to_backup "owner.key") b s ≡ ok s'
      → On IsSaved s'
  IsSaved-key uid s s' b (p, q) f e =
      let (files, made, same) = bind-eq-ok (put_in "owner.key" b s.backup) _ e in
      let here = put_in-lookup "owner.key" "owner.crt" b s.backup files made in
      subst (On IsSaved) (ok-injective same)
        (p, here.1 (λ n. ground (arith, eq_iff "owner.key" "owner.crt")) ∙ q, here.0 ∙ sym f)

  pub installed_cert :
      (uid : ℕ) (s s' : Owner) (b : List ℕ)
      → On IsSaved s
      → cert ≡ ok b
      → put uid (to_live "owner.crt") b s ≡ ok s'
      → On IsHalf s'
  installed_cert uid s s' b ((p, p'), q, r) f e =
      let file = regular uid 0o600 b in
      subst (On IsHalf) (ok-injective e) (
        (
          rw (lookup-insert_self "owner.crt" file s.live) (sym f),
          ap bytes_of (ground (arith, lookup-insert "owner.crt" "owner.key" file s.live)) ∙ p',
        ),
        q,
        r,
      )

  pub installed_key :
      (uid : ℕ) (s s' : Owner) (b : List ℕ)
      → On IsHalf s
      → key ≡ ok b
      → put uid (to_live "owner.key") b s ≡ ok s'
      → On IsNew s'
  installed_key uid s s' b ((p, p'), q, r) f e =
      let file = regular uid 0o600 b in
      subst (On IsNew) (ok-injective e) (
        ap bytes_of (ground (arith, lookup-insert "owner.key" "owner.crt" file s.live)) ∙ p,
        rw (lookup-insert_self "owner.key" file s.live) (sym f),
      )

  pub backup_made :
      (s s' : Owner) (o : Option (Dict (List ℕ)))
      → On IsOld s
      → make_backup_at s o ≡ ok s'
      → On IsOld s'
  backup_made s s' none p e = subst (On IsOld) (ok-injective e) p
  backup_made s s' (some _) p e = absurd (cc e)

  pub backup_unlinked :
      (name : String) (s s' : Owner) → On IsNew s → unlink_backup name s ≡ ok s' → On IsNew s'
  backup_unlinked name s s' p e =
      let (files, made, same) = bind-eq-ok (unlink_in name s.backup) _ e in
      subst (On IsNew) (ok-injective same) p

  pub backup_removed :
      (s s' : Owner) (o : Option (Dict (List ℕ)))
      → On IsNew s
      → rmdir_backup_at s o ≡ ok s'
      → On IsNew s' × (s'.backup ≡ none)
  backup_removed s s' none p e = absurd (cc e)
  backup_removed s s' (some []) p e =
      subst (λ (t : Owner). On IsNew t × (t.backup ≡ none)) (ok-injective e) (p, refl)
  backup_removed s s' (some (_ ∷ _)) p e = absurd (cc e)
