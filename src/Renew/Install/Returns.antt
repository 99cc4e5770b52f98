-- ===== src/Renew/Install/Returns.antt =====
-- `owner_install` of renew.py where nothing is refused.
use aura_server.Base.{
  ℕ, ◌≡◌, refl, sym, ap, ◌∙◌, String, Bool, Option, none, some, List, [], ◌∷◌, ◌++◌, Result, ok,
}
use aura_server.Base.Dict.{lookup, erase}
use aura_server.Script.{World, Machine, for_each}
use mathlib.Core.List.{append-nil}
use aura_server.Script.Commands.{RanTo}
use aura_server.Script.Total.{
  IsWilling, Works, Works-bind, Works-pure, Works-lift, Works-read, Works-found, Works-try_except,
  Works-try_finally, Works-change, Works-command, Works-for_each, Works-when, Ends-ok, result_of,
}
use aura_server.Renew.State.{
  File, regular, special, Owner, private_regular, check_owner_root, bytes_of, make_backup,
  unlink_backup, rmdir_backup, make_staged, drop_staged,
}
use aura_server.Renew.Install.{
  owner_files, as_owner, check_private, names, clean_previous, owner_install,
}
use aura_server.Renew.Install.Copy.{On}
use aura_server.Renew.Install.Pairs.{Pair}
use aura_server.Renew.Install.Recover.{owner_install-IsRecoverable}
use aura_server.Renew.Install.Order.{commands_of, owner_install_commands}
use aura_server.Renew.Install.Total.{
  settle-Works, Saving, Installing, cert_saved, both_saved, save_cert-Works, save_key-Works,
  install_one-Works,
}

-- A directory that is the service's own, with both files and no backup of an earlier renewal.
pub record IsReady (uid : ℕ) (s : Owner) : Type 0 where
  pub own : check_owner_root uid s.root ≡ ok tt
  pub cert : private_regular uid (lookup "owner.crt" s.live) ≡ ok tt
  pub key : private_regular uid (lookup "owner.key" s.live) ≡ ok tt
  pub no_backup : s.backup ≡ none

private_bytes :
    (uid : ℕ) (o : Option File) → private_regular uid o ≡ ok tt → (b : List ℕ) × (bytes_of o ≡ ok b)
private_bytes uid none e = absurd (cc e)
private_bytes uid (some special) e = absurd (cc e)
private_bytes uid (some (regular owner mode b)) e = (b, refl)

module _ (h : Machine) (willing : IsWilling h) (fresh : Owner → String)
    (new : (s : Owner) → lookup (fresh s) s.temps ≡ none) (uid : ℕ) (s0 : Owner)
    (ready : IsReady uid s0) where
  check_private-Works :
      (name : String)
      → private_regular uid (lookup name s0.live) ≡ ok tt
      → Works (λ s. s ≡ s0) (check_private uid name) (λ _ s. s ≡ s0)
  unfolding check_private
  check_private-Works name e =
      Works-found _
        (λ s p. (tt, ap (λ (s : Owner). private_regular uid (lookup name s.live)) p ∙ e, p))

  module _ (c0 k0 : List ℕ) (has_cert : bytes_of (lookup "owner.crt" s0.live) ≡ ok c0)
      (has_key : bytes_of (lookup "owner.key" s0.live) ≡ ok k0) where
    abbrev Saved : Owner → Type 0
    Saved s = s.backup ≡ some (both_saved c0 k0)

    owner_files-Works :
        (cert key : List ℕ) → Works (λ s. s ≡ s0) (owner_files h fresh cert key uid) (λ _. Saved)
    unfolding owner_files
    owner_files-Works cert key =
        Works-read (λ _ s. s ≡ s0) _ _
          (λ s p. (tt, ap (λ (s : Owner). check_owner_root uid s.root) p ∙ ready.own, p))
          λ _.
            Works-bind (λ _ s. s ≡ s0) _ _
              (Works-for_each (check_private uid) names (
                check_private-Works "owner.crt" ready.cert,
                (check_private-Works "owner.key" ready.key, tt),
              ))
              λ _.
                Works-bind (λ _. On (Saving s0.live [])) _ _
                  (Works-change h willing (On (Saving s0.live [])) make_backup (λ s p.
                    let free : s.backup ≡ none = ap (λ (s : Owner). s.backup) p ∙ ready.no_backup in
                    (
                      record s { backup = some [] },
                      rw free refl,
                      (ap (λ (s : Owner). s.live) p, refl),
                    )))
                  λ _.
                    Works-bind (λ _. On (Saving s0.live [])) _ _ (settle-Works h willing)
                      λ _.
                        Works-bind (λ _. On (Saving s0.live (cert_saved c0))) _ _
                          (save_cert-Works h willing fresh new uid s0.live c0 k0 has_cert has_key)
                          λ _.
                            Works-bind (λ _. On (Saving s0.live (both_saved c0 k0))) _ _
                              (save_key-Works h willing fresh new uid s0.live c0 k0 has_cert
                                has_key)
                              λ _.
                                Works-bind (λ _. On (Installing (both_saved c0 k0))) _ _
                                  (Works-change h willing (On (Installing (both_saved c0 k0)))
                                    make_staged
                                    (λ s (_, saved).
                                      (record s { staged = some [] }, refl, (saved, [], refl))))
                                  λ _.
                                    Works-try_finally (λ _. On (Installing (both_saved c0 k0))) _ _
                                      (Works-bind (λ _. On (Installing (both_saved c0 k0))) _ _
                                        (install_one-Works h willing fresh new uid
                                          (both_saved c0 k0) "owner.crt" cert)
                                        λ _.
                                          install_one-Works h willing fresh new uid
                                            (both_saved c0 k0) "owner.key" key)
                                      λ _.
                                        Works-change h willing Saved drop_staged (λ s (saved, _, _).
                                          (record s { staged = none }, refl, saved))

    clean_previous-Works : Works Saved (clean_previous h) (λ _ s. s.backup ≡ none)
    unfolding clean_previous for_each erase lookup
    clean_previous-Works =
        Works-bind (λ _ s. s.backup ≡ some []) _ _
          (Works-bind (λ _ s. s.backup ≡ some (("owner.key", k0) ∷ [])) _ _
            (Works-change h willing (λ s. s.backup ≡ some (("owner.key", k0) ∷ []))
              (unlink_backup "owner.crt")
              (λ s p. (record s { backup = some (("owner.key", k0) ∷ []) }, rw p refl, refl)))
            λ _.
              Works-bind (λ _ s. s.backup ≡ some []) _ _
                (Works-change h willing (λ s. s.backup ≡ some []) (unlink_backup "owner.key")
                  (λ s p. (record s { backup = some [] }, rw p refl, refl)))
                λ _. Works-pure tt (λ s p. p))
          λ _.
            Works-change h willing (λ s. s.backup ≡ none) rmdir_backup
              (λ s p. (record s { backup = none }, rw p refl, refl))

    owner_install-Works :
        (cert key : List ℕ) (root : String) (active : Bool)
        → Works
            (λ s. s ≡ s0)
            (owner_install h fresh (ok cert) (ok key) root uid active)
            (λ _ s. s.backup ≡ none)
    unfolding owner_install as_owner
    owner_install-Works cert key root active =
        Works-bind (λ _ s. s ≡ s0) _ _ (Works-lift (ok cert) cert refl (λ s p. p))
          λ cert_bytes.
            Works-bind (λ _ s. s ≡ s0) _ _ (Works-lift (ok key) key refl (λ s p. p))
              λ key_bytes.
                Works-bind (λ _ s. s ≡ s0) _ _
                  (Works-when active _ (Works-command h willing (λ s. s ≡ s0) _ (λ s p. p)))
                  λ _.
                    Works-bind (λ _. Saved) _ _
                      (Works-try_except _ _ (owner_files-Works cert_bytes key_bytes))
                      λ _.
                        Works-bind (λ _. Saved) _ _ (Works-command h willing Saved _ (λ s p. p))
                          λ _.
                            Works-bind (λ _. Saved) _ _
                              (Works-when active _ (
                                Works-bind (λ _. Saved) _ _
                                  (Works-command h willing Saved _ (λ s p. p))
                                  λ _. Works-command h willing Saved _ (λ s p. p)))
                              λ _. Works-try_except _ _ clean_previous-Works

-- All the commands were run where the script gave a result.
ran_all :
    (plan before : List (List String)) (r : Result (Unit {0}) × World Owner)
    → r.0 ≡ ok tt
    → RanTo before plan r
    → r.1.commands ≡ before ++ plan
ran_all plan before r e (done, rest, split, ran, whole) =
    ran ∙ ap (λ l. before ++ l) (sym (split ∙ (ap (λ l. done ++ l) (whole tt e) ∙ append-nil done)))

-- `owner_install` renews a directory that is ready: the service's own, with both files private to it
-- and no backup left from an earlier run. Where the system refuses nothing, each command succeeds, and
-- `mkstemp` chooses names that are not taken, it returns; the new pair then stands in the directory, the
-- backup is gone, and exactly the commands of its plan were run, in their order.
pub owner_install_total :
    (h : Machine) (fresh : Owner → String) (cert key : List ℕ) (root : String) (uid : ℕ)
    (active : Bool) (s0 : Owner) (before : List (List String))
    → IsWilling h
    → ((s : Owner) → lookup (fresh s) s.temps ≡ none)
    → IsReady uid s0
    → let r =
        owner_install h fresh
          (ok cert)
          (ok key)
          root
          uid
          active
          (record { now = s0; past = []; commands = before }) in
      (r.0 ≡ ok tt)
      × Pair (ok cert) (ok key) r.1.now.live
      × (r.1.now.backup ≡ none)
      × (r.1.commands ≡ before ++ commands_of root active)
owner_install_total h fresh cert key root uid active s0 before willing new ready =
    let w : World Owner = record { now = s0; past = []; commands = before } in
    let (c0, has_cert) = private_bytes uid (lookup "owner.crt" s0.live) ready.cert in
    let (k0, has_key) = private_bytes uid (lookup "owner.key" s0.live) ready.key in
    let (_, e) =
      result_of w
        (owner_install-Works h willing fresh new uid s0 ready c0 k0 has_cert has_key cert key root
          active)
        refl in
    let (_, ends) =
      owner_install-IsRecoverable h fresh (ok cert) (ok key) root uid active s0 before in
    let r = owner_install h fresh (ok cert) (ok key) root uid active w in
    let (stands, gone) = Ends-ok _ _ r tt e ends in
    (
      e,
      stands,
      gone,
      ran_all _ before r e (owner_install_commands h fresh (ok cert) (ok key) root uid active w),
    )
