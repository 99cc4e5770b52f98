-- ===== src/Renew/Install/Total.antt =====
-- The copies of renew.py's `owner_files` where nothing is refused.
use aura_server.Base.{ℕ, ◌≡◌, refl, ap, ◌∙◌, String, none, some, List, [], ◌∷◌, Result, ok}
use aura_server.Base.Dict.{Dict, lookup, insert, erase, lookup-insert_self}
use aura_server.Script.{Machine}
use aura_server.Script.Total.{
  IsWilling, Works, Works-bind, Works-gets, Works-assume, Works-read, Works-try_finally,
  Works-change, Works-when,
}
use aura_server.Renew.State.{
  File, regular, Owner, bytes_of, read_live, read_staged, make_temp, write_temp, drop_temp, Place,
  to_live, to_backup, put, replace_temp, write_staged,
}
use aura_server.Renew.Install.{settle, clean_temp, copy_by, atomic_copy, save_one, install_one}
use aura_server.Renew.Install.Copy.{Files, On}

-- The directory as it was, with so much in the backup.
abbrev pub Saving : Dict File → Dict (List ℕ) → Files
Saving live0 saved live backup staged = (live ≡ live0) × (backup ≡ some saved)

abbrev pub cert_saved : List ℕ → Dict (List ℕ)
cert_saved c0 = ("owner.crt", c0) ∷ []

abbrev pub both_saved : List ℕ → List ℕ → Dict (List ℕ)
both_saved c0 k0 = ("owner.crt", c0) ∷ ("owner.key", k0) ∷ []

-- The new files are being installed.
abbrev pub Installing : Dict (List ℕ) → Files
Installing saved live backup staged =
    (backup ≡ some saved) × (d : Dict (List ℕ)) × (staged ≡ some d)

abbrev pub Staging : Dict (List ℕ) → String → List ℕ → Files
Staging saved name bytes live backup staged =
    (backup ≡ some saved) × (d : Dict (List ℕ)) × (staged ≡ some d) × (lookup name d ≡ some bytes)

module _ (h : Machine) (willing : IsWilling h) where
  pub settle-Works : {P : Owner → Type 0} → Works P (settle h) (λ _. P)
  unfolding settle
  settle-Works {P} = Works-change h willing P ok (λ s p. (s, refl, p))

  clean_temp-Works : (P : Files) (temp : String) → Works (On P) (clean_temp h temp) (λ _. On P)
  unfolding clean_temp
  clean_temp-Works P temp =
      Works-bind (λ _. On P) _ _ (Works-gets _ (λ s p. p))
        λ left.
          Works-when left _ (Works-change h willing (On P) (drop_temp temp) (λ s p. (_, refl, p)))

  module _ (P Q : Files) (source : Owner → Result (List ℕ)) (bytes : List ℕ)
      (reads : (s : Owner) → On P s → source s ≡ ok bytes) (uid : ℕ) (place : Place)
      (puts : (s : Owner) → On P s → (s' : Owner) × (put uid place bytes s ≡ ok s') × On Q s') where
    abbrev Written : String → Owner → Type 0
    Written temp s = On P s × (lookup temp s.temps ≡ some bytes)

    replaced :
        (temp : String) (s : Owner)
        → Written temp s
        → (s' : Owner) × (replace_temp uid temp place s ≡ ok s') × On Q s'
    replaced temp s (p, e) =
        let (s', made, q) = puts (record s { temps = erase temp s.temps }) p in (s', rw e made, q)

    copy_by-Works : (temp : String) → Works (On P) (copy_by h temp source uid place) (λ _. On Q)
    unfolding copy_by
    copy_by-Works temp =
        Works-bind (λ _. On P) _ _ settle-Works
          λ _.
            Works-bind (λ _. On P) _ _ settle-Works
              λ _.
                Works-read (λ b s. (b ≡ bytes) × On P s) source _
                  (λ s p. (bytes, reads s p, (refl, p)))
                  λ b. Works-assume _ (b ≡ bytes) λ same.
                    Works-bind (λ _. Written temp) _ _
                      (Works-change h willing (Written temp) (write_temp temp b)
                        (λ s p. (_, refl, (p, lookup-insert_self temp b s.temps ∙ ap some same))))
                      λ _.
                        Works-bind (λ _. Written temp) _ _ settle-Works
                          λ _.
                            Works-bind (λ _. On Q) _ _
                              (Works-change h willing (On Q) (replace_temp uid temp place)
                                (replaced temp))
                              λ _. settle-Works

    temp_made :
        (temp : String) (s : Owner)
        → lookup temp s.temps ≡ none
        → On P s
        → (s' : Owner) × (make_temp temp s ≡ ok s') × On P s'
    temp_made temp s e p = (record s { temps = insert temp [] s.temps }, rw e refl, p)

    -- The name that `mkstemp` chooses is new.
    atomic_copy-Works :
        (fresh : Owner → String)
        → ((s : Owner) → lookup (fresh s) s.temps ≡ none)
        → Works (On P) (atomic_copy h fresh source uid place) (λ _. On Q)
    unfolding atomic_copy
    atomic_copy-Works fresh new =
        Works-bind (λ temp s. (lookup temp s.temps ≡ none) × On P s) _ _
          (Works-gets fresh (λ s p. (new s, p)))
          λ temp.
            Works-bind (λ _. On P) _ _
              (Works-change h willing (On P) (make_temp temp) (λ s (e, p). temp_made temp s e p))
              λ _.
                Works-try_finally (λ _. On Q) _ _ (copy_by-Works temp)
                  (λ _. clean_temp-Works Q temp)

  module _ (fresh : Owner → String) (new : (s : Owner) → lookup (fresh s) s.temps ≡ none) (uid : ℕ)
      (live0 : Dict File) (c0 k0 : List ℕ) (has_cert : bytes_of (lookup "owner.crt" live0) ≡ ok c0)
      (has_key : bytes_of (lookup "owner.key" live0) ≡ ok k0) where
    pub save_cert-Works :
        Works
          (On (Saving live0 []))
          (save_one h fresh uid "owner.crt")
          (λ _. On (Saving live0 (cert_saved c0)))
    unfolding save_one insert
    save_cert-Works =
        atomic_copy-Works (Saving live0 []) (Saving live0 (cert_saved c0)) (read_live "owner.crt")
          c0 (λ s (same, _). ap (λ d. bytes_of (lookup "owner.crt" d)) same ∙ has_cert) uid
          (to_backup "owner.crt")
          (λ s (same, saved).
            (record s { backup = some (cert_saved c0) }, rw saved refl, (same, refl)))
          fresh new

    pub save_key-Works :
        Works
          (On (Saving live0 (cert_saved c0)))
          (save_one h fresh uid "owner.key")
          (λ _. On (Saving live0 (both_saved c0 k0)))
    unfolding save_one insert
    save_key-Works =
        atomic_copy-Works (Saving live0 (cert_saved c0)) (Saving live0 (both_saved c0 k0))
          (read_live "owner.key") k0
          (λ s (same, _). ap (λ d. bytes_of (lookup "owner.key" d)) same ∙ has_key) uid
          (to_backup "owner.key")
          (λ s (same, saved).
            (record s { backup = some (both_saved c0 k0) }, rw saved refl, (same, refl)))
          fresh new

  module _ (fresh : Owner → String) (new : (s : Owner) → lookup (fresh s) s.temps ≡ none)
      (uid : ℕ) where
    pub install_one-Works :
        (saved : Dict (List ℕ)) (name : String) (bytes : List ℕ)
        → Works
            (On (Installing saved))
            (install_one h fresh uid name bytes)
            (λ _. On (Installing saved))
    unfolding install_one
    install_one-Works saved name bytes =
        Works-bind (λ _. On (Staging saved name bytes)) _ _
          (Works-change h willing (On (Staging saved name bytes)) (write_staged name bytes)
            (λ s (kept, d, at). (
              record s { staged = some (insert name bytes d) },
              rw at refl,
              (kept, insert name bytes d, refl, lookup-insert_self name bytes d),
            )))
          λ _.
            Works-bind (λ _. On (Staging saved name bytes)) _ _ settle-Works
              λ _.
                atomic_copy-Works (Staging saved name bytes) (Installing saved) (read_staged name)
                  bytes (λ s (_, d, at, is). rw (at, is) refl) uid (to_live name)
                  (λ s (kept, d, at, _). (
                    record s { live = insert name (regular uid 0o600 bytes) s.live },
                    refl,
                    (kept, d, at),
                  ))
                  fresh new
