-- ===== src/Renew/Install/Recover.antt =====
-- `owner_install` of renew.py as a whole.
use aura_server.Base.{
  ℕ, ◌≡◌, refl, inl, inr, String, Bool, true, false, none, List, [], ◌∷◌, Result, ok,
}
use aura_server.Script.{Machine, Script, ◌>>◌, change, when, command}
use aura_server.Script.Rules.{
  Holds, Seen, Ends, Holds-bind, Holds-lift, Holds-change, Holds-pure, Holds-assume, Holds-throw,
  Holds-command, Holds-try_except, Holds-for_each,
}
use aura_server.Renew.State.{Owner, read_live, unlink_backup, rmdir_backup}
use aura_server.Renew.Install.{names, as_owner, clean_previous, owner_install}
use aura_server.Renew.Install.Copy.{Files, On}
use aura_server.Renew.Install.Pairs.{
  Pair, IsOld, IsNew, IsRecoverable, backup_unlinked, backup_removed,
}
use aura_server.Renew.Install.Steps.{owner_files-Holds}

module _ (h : Machine) (cert key old_cert old_key : Result (List ℕ)) where
  abbrev E : Files
  E = IsRecoverable cert key old_cert old_key

  abbrev Old : Files
  Old = IsOld cert key old_cert old_key

  abbrev New : Files
  New = IsNew cert key old_cert old_key

  clean_previous-Holds :
      Holds (On E) (On New) (clean_previous h) (λ _ s. On New s × (s.backup ≡ none)) (On E)
  unfolding clean_previous
  clean_previous-Holds =
      let new : (s : Owner) → On New s → On E s = λ s p. inr (inr p) in
      Holds-bind (λ _. On New) _ _
        (Holds-for_each (λ name. change h (unlink_backup name)) names new
          (λ name.
            Holds-change h (unlink_backup name)
              (λ s s' p e.
                let q = backup_unlinked cert key old_cert old_key name s s' p e in (new s' q, q))
              new))
        λ _.
          Holds-change h rmdir_backup
            (λ s s' p e.
              let q = backup_removed cert key old_cert old_key s s' s.backup p e in (new s' q.0, q))
            new

  as_owner-Holds :
      (P : Owner → Type 0) (Q : Owner → Type 0) (m : Script Owner (Unit {0}))
      → Holds (On E) P m (λ _. Q) (On E)
      → Holds (On E) P (as_owner m) (λ _. Q) (On E)
  unfolding as_owner
  as_owner-Holds P Q m k = Holds-try_except (On E) _ _ k (λ _. Holds-throw _ (λ s p. p))

  when-command-Holds :
      (P : Files) (args : List String) (active : Bool)
      → ((s : Owner) → On P s → On E s)
      → Holds (On E) (On P) (when active (command h args)) (λ _. On P) (On E)
  when-command-Holds P args true weak = Holds-command h args (λ s p. p) weak
  when-command-Holds P args false weak = Holds-pure tt (λ s p. p)

  when_start-Holds :
      (active : Bool)
      → Holds
          (On E)
          (On New)
          (when active (
            command h ("systemctl" ∷ "start" ∷ "aura-server.service" ∷ [])
            >> command h ("systemctl" ∷ "is-active" ∷ "--quiet" ∷ "aura-server.service" ∷ [])))
          (λ _. On New)
          (On E)
  when_start-Holds true =
      Holds-bind (λ _. On New) _ _ (Holds-command h _ (λ s p. p) (λ s p. inr (inr p)))
        λ _. Holds-command h _ (λ s p. p) (λ s p. inr (inr p))
  when_start-Holds false = Holds-pure tt (λ s p. p)

  owner_install-Holds :
      (fresh : Owner → String) (root : String) (uid : ℕ) (active : Bool)
      → Holds
          (On E)
          (On Old)
          (owner_install h fresh cert key root uid active)
          (λ _ s. On New s × (s.backup ≡ none))
          (On E)
  unfolding owner_install
  owner_install-Holds fresh root uid active =
      let old : (s : Owner) → On Old s → On E s = λ s p. inl p in
      Holds-bind (λ b s. (cert ≡ ok b) × On Old s) _ _ (Holds-lift cert (λ b s e p. (e, p)) old)
        λ cert_bytes. Holds-assume _ (cert ≡ ok cert_bytes) λ given_cert.
          Holds-bind (λ b s. (key ≡ ok b) × On Old s) _ _ (Holds-lift key (λ b s e p. (e, p)) old)
            λ key_bytes. Holds-assume _ (key ≡ ok key_bytes) λ given_key.
              Holds-bind (λ _. On Old) _ _ (when-command-Holds Old _ active old)
                λ _.
                  Holds-bind (λ _. On New) _ _
                    (as_owner-Holds (On Old) (On New) _ (
                      owner_files-Holds h cert key old_cert old_key fresh uid cert_bytes key_bytes
                        given_cert given_key))
                    λ _.
                      Holds-bind (λ _. On New) _ _
                        (Holds-command h _ (λ s p. p) (λ s p. inr (inr p)))
                        λ _.
                          Holds-bind (λ _. On New) _ _ (when_start-Holds active)
                            λ _. as_owner-Holds (On New) _ _ clean_previous-Holds

-- Whatever calls the operating system refuses and whichever commands fail, in each state that
-- `owner_install` passes through, and so in each that a crash can leave, the old pair stands in the
-- directory, or the new one does, or the new certificate stands beside the old key while the backup
-- holds the old pair. Where `owner_install` returns, the new pair stands and the backup is gone.
pub owner_install-IsRecoverable :
    (h : Machine) (fresh : Owner → String) (cert key : Result (List ℕ)) (root : String) (uid : ℕ)
    (active : Bool) (s0 : Owner) (commands : List (List String))
    → let recoverable =
        On (IsRecoverable cert key (read_live "owner.crt" s0) (read_live "owner.key" s0)) in
      let r =
        owner_install h fresh cert key root uid active
          (record { now = s0; past = []; commands = commands }) in
      Seen recoverable r.1
      × Ends (λ (_ : Unit {0}) s. Pair cert key s.live × (s.backup ≡ none)) recoverable r
owner_install-IsRecoverable h fresh cert key root uid active s0 commands =
    (owner_install-Holds h cert key (read_live "owner.crt" s0) (read_live "owner.key" s0) fresh root
        uid active).at
      (record { now = s0; past = []; commands = commands }) (inl (refl, refl), tt) (refl, refl)
