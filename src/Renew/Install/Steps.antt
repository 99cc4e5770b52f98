-- ===== src/Renew/Install/Steps.antt =====
-- `owner_files` of renew.py: the old pair can be had until the new one is in place.
use aura_server.Base.{
  ℕ, ◌≡◌, sym, ◌∙◌, inl, inr, String, Option, some, List, Result, ok, bind-eq-ok, ok-injective,
}
use mathlib.Core.Path.{subst}
use aura_server.Base.Dict.{Dict}
use aura_server.Script.{Machine}
use aura_server.Script.Rules.{
  Holds, Holds-bind, Holds-gets, Holds-lift, Holds-change, Holds-update, Holds-for_each,
}
use aura_server.Script.Finally.{Holds-try_finally}
use aura_server.Renew.State.{
  File, Owner, read_live, read_in, read_staged, put_in, to_live, to_backup, make_backup,
  write_staged,
}
use aura_server.Renew.Install.{names, check_private, save_one, install_one, owner_files}
use aura_server.Renew.Install.Copy.{Files, On, settle-Holds, atomic_copy-Holds}
use aura_server.Renew.Install.Pairs.{
  put_in-lookup, IsOld, IsSavedCert, IsSaved, IsHalf, IsNew, IsRecoverable, IsSavedCert-cert,
  IsSaved-key, installed_cert, installed_key, backup_made,
}

module _ (P : Files)
    (no_staged : (l : Dict File) (b st st' : Option (Dict (List ℕ))) → P l b st → P l b st') where
  -- The new file is in the temporary directory.
  abbrev Staged : String → Result (List ℕ) → Files
  Staged name source l b st = P l b st × (read_in name st ≡ source)

  Staged-write :
      (name : String) (bytes : List ℕ) (s s' : Owner)
      → On P s
      → write_staged name bytes s ≡ ok s'
      → On (Staged name (ok bytes)) s'
  Staged-write name bytes s s' p e =
      let (files, made, same) = bind-eq-ok (put_in name bytes s.staged) _ e in
      subst (On (Staged name (ok bytes))) (ok-injective same) (
        no_staged s.live s.backup s.staged (some files) p,
        (put_in-lookup name name bytes s.staged files made).0,
      )

module _ (h : Machine) (cert key old_cert old_key : Result (List ℕ)) where
  abbrev E : Files
  E = IsRecoverable cert key old_cert old_key

  abbrev Old : Files
  Old = IsOld cert key old_cert old_key

  abbrev Saved : Files
  Saved = IsSaved cert key old_cert old_key

  abbrev Half : Files
  Half = IsHalf cert key old_cert old_key

  abbrev New : Files
  New = IsNew cert key old_cert old_key

  abbrev SavedCert : Files
  SavedCert = IsSavedCert cert key old_cert old_key

  module _ (fresh : Owner → String) (uid : ℕ) where
    install_cert-Holds :
        (bytes : List ℕ)
        → cert ≡ ok bytes
        → Holds (On E) (On Saved) (install_one h fresh uid "owner.crt" bytes) (λ _. On Half) (On E)
    unfolding install_one
    install_cert-Holds bytes given =
        let Now = Staged Saved (λ l b st st' p. p) "owner.crt" (ok bytes) in
        Holds-bind (λ _. On Now) _ _
          (Holds-change h (write_staged "owner.crt" bytes)
            (λ s s' p e.
              let q = Staged-write Saved (λ l b st st' p. p) "owner.crt" bytes s s' p e in
              (inl q.0.0, q))
            (λ s p. inl p.0))
          λ _.
            Holds-bind (λ _. On Now) _ _ (settle-Holds h Now E (λ s p. inl p.0.0))
              λ _.
                atomic_copy-Holds h Now Half E (λ s p. inl p.0.0) (λ s p. inr (inl p))
                  (read_staged "owner.crt") (λ b. cert ≡ ok b) (λ s b p e. given ∙ (sym p.1 ∙ e))
                  uid (to_live "owner.crt")
                  (λ s s' b p. installed_cert cert key old_cert old_key uid s s' b p.0) fresh

    install_key-Holds :
        (bytes : List ℕ)
        → key ≡ ok bytes
        → Holds (On E) (On Half) (install_one h fresh uid "owner.key" bytes) (λ _. On New) (On E)
    unfolding install_one
    install_key-Holds bytes given =
        let Now = Staged Half (λ l b st st' p. p) "owner.key" (ok bytes) in
        Holds-bind (λ _. On Now) _ _
          (Holds-change h (write_staged "owner.key" bytes)
            (λ s s' p e.
              let q = Staged-write Half (λ l b st st' p. p) "owner.key" bytes s s' p e in
              (inr (inl q.0), q))
            (λ s p. inr (inl p)))
          λ _.
            Holds-bind (λ _. On Now) _ _ (settle-Holds h Now E (λ s p. inr (inl p.0)))
              λ _.
                atomic_copy-Holds h Now New E (λ s p. inr (inl p.0)) (λ s p. inr (inr p))
                  (read_staged "owner.key") (λ b. key ≡ ok b) (λ s b p e. given ∙ (sym p.1 ∙ e)) uid
                  (to_live "owner.key")
                  (λ s s' b p. installed_key cert key old_cert old_key uid s s' b p.0) fresh

    pub owner_files-Holds :
        (cert_bytes key_bytes : List ℕ)
        → cert ≡ ok cert_bytes
        → key ≡ ok key_bytes
        → Holds (On E) (On Old) (owner_files h fresh cert_bytes key_bytes uid) (λ _. On New) (On E)
    unfolding owner_files check_private save_one
    owner_files-Holds cert_bytes key_bytes given_cert given_key =
        let old : (s : Owner) → On Old s → On E s = λ s p. inl p in
        let saved : (s : Owner) → On Saved s → On E s = λ s p. inl p.0 in
        Holds-bind (λ _. On Old) _ _ (Holds-gets _ (λ s p. p))
          λ r.
            Holds-bind (λ _. On Old) _ _ (Holds-lift r (λ _ s _ p. p) old)
              λ _.
                Holds-bind (λ _. On Old) _ _
                  (Holds-for_each (check_private uid) names old (λ name.
                    Holds-bind (λ _. On Old) _ _ (Holds-gets _ (λ s p. p))
                      λ q. Holds-lift q (λ _ s _ p. p) old))
                  λ _.
                    Holds-bind (λ _. On Old) _ _
                      (Holds-change h make_backup
                        (λ s s' p e.
                          let q = backup_made cert key old_cert old_key s s' s.backup p e in
                          (old s' q, q))
                        old)
                      λ _.
                        Holds-bind (λ _. On Old) _ _ (settle-Holds h Old E old)
                          λ _.
                            Holds-bind (λ _. On SavedCert) _ _
                              (atomic_copy-Holds h Old SavedCert E (λ s p. inl p) (λ s p. inl p.0)
                                (read_live "owner.crt") (λ b. old_cert ≡ ok b)
                                (λ s b p e. sym p.0 ∙ e) uid (to_backup "owner.crt")
                                (IsSavedCert-cert cert key old_cert old_key uid) fresh)
                              λ _.
                                Holds-bind (λ _. On Saved) _ _
                                  (atomic_copy-Holds h SavedCert Saved E (λ s p. inl p.0)
                                    (λ s p. inl p.0) (read_live "owner.key") (λ b. old_key ≡ ok b)
                                    (λ s b p e. sym p.0.1 ∙ e) uid (to_backup "owner.key")
                                    (IsSaved-key cert key old_cert old_key uid) fresh)
                                  λ _.
                                    Holds-bind (λ _. On Saved) _ _
                                      (Holds-update h _ (λ s p. (saved s p, p)) saved)
                                      λ _.
                                        Holds-try_finally (On E) _ _
                                          (Holds-bind (λ _. On Half) _ _
                                            (install_cert-Holds cert_bytes given_cert)
                                            (λ _. install_key-Holds key_bytes given_key))
                                          (λ _.
                                            Holds-update h _ (λ s p. (inr (inr p), p))
                                              (λ s p. inr (inr p)))
                                          (Holds-update h _ (λ s p. (p, p)) (λ s p. p))
