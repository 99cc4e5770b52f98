-- ===== src/Renew/Command/Renewed.antt =====
-- What `main` of renew.py changes and runs, for each role.
use aura_server.Base.{
  ℕ, ◌≡◌, refl, ap, ◌∙◌, inl, inr, String, Bool, Bool-cases, true, false, List, [], ◌∷◌, ◌++◌,
  Error, Result, Result-cases, ok, err,
}
use mathlib.Core.List.{append_assoc}
use aura_server.Script.{World, Machine, pure, lift, ◌>>=◌, command}
use aura_server.Script.Commands.{RanTo, Runs, Runs-pure, Runs-lift, Runs-command, Runs-bind}
use aura_server.Renew.State.{Owner}
use aura_server.Renew.Validate.{Library, Snapshot}
use aura_server.Renew.Validate.Then.{is_active_lem, start_of, IsAfter, validate_pair-IsAfter}
use aura_server.Renew.Validate.Commands.{question}
use aura_server.Renew.Install.Order.{commands_of, owner_install_commands}
use aura_server.Renew.Install.Safe.{IsSafe, owner_install-IsSafe}
use aura_server.Renew.Command.{Role, owner, derp, rendezvous, Inputs, accept}
use aura_server.Renew.Command.Run.{service_of, install, serve, renew, main}

abbrev pub IsUnchanged : Owner → Result (Unit {0}) × World Owner → Type 0
IsUnchanged s0 r = (r.1.now ≡ s0) × (r.1.past ≡ [])

-- The public services have no file in the owner's directory.
abbrev pub IsKept : Snapshot → Owner → Role → Result (Unit {0}) × World Owner → Type 0
IsKept pair s0 owner r = IsSafe pair s0 r
IsKept pair s0 _ r = IsUnchanged s0 r

-- The commands after the question: a service that was not active is neither stopped nor started.
abbrev pub commands_for : Role → Bool → List (List String)
commands_for owner active = commands_of "/var/lib/aura-server" active
commands_for role true =
    ("systemctl" ∷ "restart" ∷ service_of role ∷ []) ∷ question (service_of role) ∷ []
commands_for role false = []

RanTo-after :
    {S : Type 0} {A : Type 0} (before : List (List String)) (first : List String)
    (plan : List (List String)) (r : Result A × World S)
    → RanTo (before ++ (first ∷ [])) plan r
    → RanTo before (first ∷ plan) r
RanTo-after before first plan r (done, rest, split, ran, whole) = (
  first ∷ done,
  rest,
  ap (λ l. first ∷ l) split,
  ran ∙ append_assoc before (first ∷ []) done,
  whole,
)

module _ (h : Machine) (L : Library) (fresh : Owner → String) where
  restart-Runs :
      (service : String)
      → Runs {S = Owner}
          (command h ("systemctl" ∷ "restart" ∷ service ∷ []) >>= λ _. command h (question service))
          (("systemctl" ∷ "restart" ∷ service ∷ []) ∷ question service ∷ [])
  restart-Runs service = Runs-bind (_ ∷ []) (_ ∷ []) _ _ (Runs-command h _) (λ _. Runs-command h _)

  install-Runs :
      (user : Result ℕ) (pair : Snapshot) (role : Role) (active : Bool)
      → Runs (install h L fresh user pair role active) (commands_for role active)
  unfolding install
  install-Runs user pair owner active = Runs-bind [] _ _ _ (Runs-lift user) λ uid. record {
    ran = λ w. owner_install_commands h fresh (ok pair.cert) (ok pair.key) _ uid active w;
  }
  install-Runs user pair derp true = restart-Runs _
  install-Runs user pair derp false = Runs-pure tt
  install-Runs user pair rendezvous true = restart-Runs _
  install-Runs user pair rendezvous false = Runs-pure tt

  restart-IsUnchanged :
      (service : String) (s0 : Owner) (commands : List (List String))
      → IsUnchanged s0 (
          (command h ("systemctl" ∷ "restart" ∷ service ∷ []) >>= λ _. command h (question service))
            (start_of s0 commands))
  unfolding command ◌>>=◌
  restart-IsUnchanged service s0 commands =
      elim (Bool-cases (h.succeeds commands ("systemctl" ∷ "restart" ∷ service ∷ []))) [
        | inl e ↦ rw e (refl, refl)
        | inr e ↦ rw e (refl, refl)
      ]

  owner-IsSafe :
      (user : Result ℕ) (pair : Snapshot) (active : Bool) (s0 : Owner)
      (commands : List (List String))
      → IsSafe pair s0 (install h L fresh user pair owner active (start_of s0 commands))
  unfolding install lift ◌>>=◌
  owner-IsSafe (ok uid) pair active s0 commands =
      owner_install-IsSafe pair s0 h fresh _ uid active commands
  owner-IsSafe (err e) pair active s0 commands = ((inl (refl, refl), tt), inl (refl, refl))

  install-IsKept :
      (user : Result ℕ) (pair : Snapshot) (role : Role) (active : Bool) (s0 : Owner)
      (commands : List (List String))
      → IsKept pair s0 role (install h L fresh user pair role active (start_of s0 commands))
  unfolding install pure
  install-IsKept user pair owner active s0 commands = owner-IsSafe user pair active s0 commands
  install-IsKept user pair derp true s0 commands = restart-IsUnchanged _ s0 commands
  install-IsKept user pair derp false s0 commands = (refl, refl)
  install-IsKept user pair rendezvous true s0 commands = restart-IsUnchanged _ s0 commands
  install-IsKept user pair rendezvous false s0 commands = (refl, refl)

-- The files of the role, and the commands after those `before`, from the question on, by its answer.
pub record IsServed (h : Machine) (pair : Snapshot) (s0 : Owner) (role : Role)
    (before : List (List String)) (r : Result (Unit {0}) × World Owner) : Type 0 where
  pub kept : IsKept pair s0 role r
  pub ran :
      RanTo before
        (question (service_of role)
          ∷ commands_for role (h.succeeds before (question (service_of role))))
        r

module _ (h : Machine) (L : Library) (s0 : Owner) where
  -- Refused at once, with no command run; or from the snapshot on.
  pub data IsRenewed (found : Inputs) (r : Result (Unit {0}) × World Owner) : Type 0 where
    rejected : (e : Error) → r ≡ (err e, start_of s0 []) → IsRenewed found r
    accepted :
        (role : Role) (host : String) (pair : Snapshot)
        → accept L found ≡ ok (role, host, pair)
        → IsAfter h L pair host false s0 (IsServed h pair s0 role) [] r
        → IsRenewed found r

module _ (h : Machine) (L : Library) (fresh : Owner → String) (s0 : Owner) where
  serve-IsServed :
      (user : Result ℕ) (pair : Snapshot) (role : Role) (commands : List (List String))
      → IsServed h pair s0 role commands (serve h L fresh user pair role (start_of s0 commands))
  unfolding serve ◌>>=◌
  serve-IsServed user pair role commands =
      let active = h.succeeds commands (question (service_of role)) in
      let later = commands ++ (question (service_of role) ∷ []) in
      rw (is_active_lem h (service_of role) (start_of s0 commands)) (record {
        kept = install-IsKept h L fresh user pair role active s0 later;
        ran =
            RanTo-after commands _ _ (install h L fresh user pair role active (start_of s0 later))
              ((install-Runs h L fresh user pair role active).ran (start_of s0 later));
      })

-- `main` of renew.py is refused at once, with no command run; or `validate_pair` refuses the snapshot,
-- with every file as it was and no other command run than `openssl verify` and the test of the
-- certificate's end, in this order, none where a test before them fails; or it accepts the snapshot for the configured host, both `openssl`
-- commands successful, and then, whatever calls the operating system refuses and whichever commands
-- fail: for the owner, the old pair or the new one can be had from each state, and the new one stands
-- where `main` returns; for a public service, no file of the owner's directory changes; and the
-- commands run are these two and then a beginning of the role's, all of them where `main` returns, in which a service
-- that was not active is never stopped, started or restarted.
pub main-IsRenewed :
    (h : Machine) (L : Library) (fresh : Owner → String) (s0 : Owner) (found : Inputs)
    → IsRenewed h L s0 found (main h L fresh found (start_of s0 []))
unfolding main renew lift ◌>>=◌
main-IsRenewed h L fresh s0 found = elim (Result-cases (accept L found)) [
  | inr (e, f) ↦ rw f (rejected e refl)
  | inl ((role, host, pair), f) ↦ rw f (
      accepted role host pair f (
        validate_pair-IsAfter h L pair host false s0 (IsServed h pair s0 role)
          (serve h L fresh found.user pair role) []
          (serve-IsServed h L fresh s0 found.user pair role)))
]
