-- ===== src/Renew/Install/Order.antt =====
-- The commands of `owner_install` of renew.py, and their order.
use aura_server.Base.{ℕ, String, Bool, true, false, List, [], ◌∷◌, Result}
use aura_server.Script.{World, Machine, Script, when, change}
use aura_server.Script.Commands.{
  Runs, RanTo, Runs-pure, Runs-throw, Runs-lift, Runs-gets, Runs-change, Runs-command, Runs-bind,
  Runs-try_except, Runs-try_finally, Runs-for_each,
}
use aura_server.Renew.State.{Owner, Place, drop_temp, unlink_backup}
use aura_server.Renew.Install.{
  names, check_private, as_owner, settle, clean_temp, copy_by, clean_previous, atomic_copy,
  save_one, install_one, owner_files, owner_install,
}

abbrev pub check_command : String → List String
check_command root =
    "runuser" ∷ "-u" ∷ "aura-server" ∷ "--" ∷ "/opt/aura-server/current/bin/aura-server" ∷ "check"
    ∷ root ∷ []

-- The service is stopped before the check and started after it, where it was active.
abbrev pub commands_of : String → Bool → List (List String)
commands_of root true =
    ("systemctl" ∷ "stop" ∷ "aura-server.service" ∷ [])
    ∷ check_command root
    ∷ ("systemctl" ∷ "start" ∷ "aura-server.service" ∷ [])
    ∷ ("systemctl" ∷ "is-active" ∷ "--quiet" ∷ "aura-server.service" ∷ [])
    ∷ []
commands_of root false = check_command root ∷ []

module _ (h : Machine) where
  settle-Runs : Runs (settle h) []
  unfolding settle
  settle-Runs = Runs-change h _

  drop-Runs : (temp : String) (left : Bool) → Runs (when left (change h (drop_temp temp))) []
  drop-Runs temp true = Runs-change h _
  drop-Runs temp false = Runs-pure tt

  clean_temp-Runs : (temp : String) → Runs (clean_temp h temp) []
  unfolding clean_temp
  clean_temp-Runs temp = Runs-bind [] [] _ _ (Runs-gets _) (λ left. drop-Runs temp left)

  copy_by-Runs :
      (temp : String) (source : Owner → Result (List ℕ)) (uid : ℕ) (place : Place)
      → Runs (copy_by h temp source uid place) []
  unfolding copy_by
  copy_by-Runs temp source uid place = Runs-bind [] [] _ _ settle-Runs λ _.
      Runs-bind [] [] _ _ settle-Runs λ _. Runs-bind [] [] _ _ (Runs-gets source) λ given.
        Runs-bind [] [] _ _ (Runs-lift given) λ bytes. Runs-bind [] [] _ _ (Runs-change h _) λ _.
          Runs-bind [] [] _ _ settle-Runs
            λ _. Runs-bind [] [] _ _ (Runs-change h _) λ _. settle-Runs

  clean_previous-Runs : Runs (clean_previous h) []
  unfolding clean_previous
  clean_previous-Runs =
      Runs-bind [] [] _ _ (Runs-for_each _ names (λ name. Runs-change h (unlink_backup name)))
        λ _. Runs-change h _

  as_owner-Runs : (m : Script Owner (Unit {0})) → Runs m [] → Runs (as_owner m) []
  unfolding as_owner
  as_owner-Runs m k = Runs-try_except m _ k (λ _. Runs-throw _)

  module _ (fresh : Owner → String) where
    atomic_copy-Runs :
        (source : Owner → Result (List ℕ)) (uid : ℕ) (place : Place)
        → Runs (atomic_copy h fresh source uid place) []
    unfolding atomic_copy
    atomic_copy-Runs source uid place = Runs-bind [] [] _ _ (Runs-gets fresh) λ temp.
        Runs-bind [] [] _ _ (Runs-change h _)
          λ _. Runs-try_finally _ _ (copy_by-Runs temp source uid place) (clean_temp-Runs temp)

    install_one-Runs :
        (uid : ℕ) (name : String) (bytes : List ℕ) → Runs (install_one h fresh uid name bytes) []
    unfolding install_one
    install_one-Runs uid name bytes =
        Runs-bind [] [] _ _ (Runs-change h _)
          λ _. Runs-bind [] [] _ _ settle-Runs λ _. atomic_copy-Runs _ uid _

    owner_files-Runs : (cert key : List ℕ) (uid : ℕ) → Runs (owner_files h fresh cert key uid) []
    unfolding owner_files check_private save_one
    owner_files-Runs cert key uid = Runs-bind [] [] _ _ (Runs-gets _) λ r.
        Runs-bind [] [] _ _ (Runs-lift r) λ _.
          Runs-bind [] [] _ _
            (Runs-for_each (check_private uid) names
              (λ name. Runs-bind [] [] _ _ (Runs-gets _) (λ q. Runs-lift q)))
            λ _. Runs-bind [] [] _ _ (Runs-change h _) λ _. Runs-bind [] [] _ _ settle-Runs λ _.
              Runs-bind [] [] _ _ (atomic_copy-Runs _ uid _) λ _.
                Runs-bind [] [] _ _ (atomic_copy-Runs _ uid _) λ _.
                  Runs-bind [] [] _ _ (Runs-change h _) λ _.
                    Runs-try_finally _ _
                      (Runs-bind [] [] _ _ (install_one-Runs uid "owner.crt" cert)
                        (λ _. install_one-Runs uid "owner.key" key))
                      (Runs-change h _)

    install-Runs :
        (cert key : Result (List ℕ)) (root : String) (uid : ℕ) (active : Bool)
        → Runs (owner_install h fresh cert key root uid active) (commands_of root active)
    unfolding owner_install
    install-Runs cert key root uid true = Runs-bind [] _ _ _ (Runs-lift cert) λ c.
        Runs-bind [] _ _ _ (Runs-lift key) λ k. Runs-bind (_ ∷ []) _ _ _ (Runs-command h _) λ _.
          Runs-bind [] _ _ _ (as_owner-Runs _ (owner_files-Runs c k uid)) λ _.
            Runs-bind (_ ∷ []) _ _ _ (Runs-command h _) λ _.
              Runs-bind (_ ∷ _ ∷ []) [] _ _
                (Runs-bind (_ ∷ []) (_ ∷ []) _ _ (Runs-command h _) (λ _. Runs-command h _))
                λ _. as_owner-Runs _ clean_previous-Runs
    install-Runs cert key root uid false = Runs-bind [] _ _ _ (Runs-lift cert) λ c.
        Runs-bind [] _ _ _ (Runs-lift key) λ k. Runs-bind [] _ _ _ (Runs-pure tt) λ _.
          Runs-bind [] _ _ _ (as_owner-Runs _ (owner_files-Runs c k uid)) λ _.
            Runs-bind (_ ∷ []) _ _ _ (Runs-command h _)
              λ _. Runs-bind [] [] _ _ (Runs-pure tt) λ _. as_owner-Runs _ clean_previous-Runs

-- Whatever calls the operating system refuses and whichever commands fail, the commands that
-- `owner_install` runs are a beginning of these, in this order: stop, check, start and the question
-- whether it is active, or the check alone where the service was not active; and all of them where
-- it returns.
pub owner_install_commands :
    (h : Machine) (fresh : Owner → String) (cert key : Result (List ℕ)) (root : String) (uid : ℕ)
    (active : Bool) (w : World Owner)
    → RanTo w.commands (commands_of root active) (owner_install h fresh cert key root uid active w)
owner_install_commands h fresh cert key root uid active w =
    (install-Runs h fresh cert key root uid active).ran w
