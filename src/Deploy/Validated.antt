-- ===== src/Deploy/Validated.antt =====
-- What `main` of ip_deploy.py publishes was validated first.
use aura_server.Base.{
  ◌≡◌, refl, inl, inr, String, Bool, Bool-cases, true, false, List, [], ◌∷◌, ◌++◌, Error, Result,
  Result-cases, ok, err,
}
use aura_server.Script.{World, Machine, pure, lift, ◌>>=◌, when, command, continue}
use aura_server.Script.Rules.{Seen, Ends}
use aura_server.Renew.Validate.{Library, Snapshot}
use aura_server.Renew.Validate.Then.{
  is_active_lem, start_of, IsAfter, refused, passed, validate_pair-IsAfter,
}
use aura_server.Renew.Validate.Commands.{question, IsChecked}
use aura_server.Deploy.Site.{Site, absent}
use aura_server.Deploy.Publish.Live.{Sight, Published}
use aura_server.Deploy.Publish.Atomic.{publish_atomic}
use aura_server.Deploy.Configuration.{Configured, Inputs, accept}
use aura_server.Deploy.Command.{serve, deploy, main}

module _ (s0 : Site) where
  -- Each state serves the old pair or the whole pair of the snapshot, and the end serves the latter
  -- where there is a result.
  abbrev pub IsAtomic : Snapshot → Result (Unit {0}) × World Site → Type 0
  IsAtomic pair r =
      Seen (Sight (ok pair.cert) (ok pair.key) s0.items) r.1
      × Ends (λ (_ : Unit {0}). Published (ok pair.cert) (ok pair.key) s0.items)
          (Sight (ok pair.cert) (ok pair.key) s0.items) r

module _ (h : Machine) (L : Library) (s0 : Site) where
  -- The run stopped before `publish`, with every file as it was; or it went through with a snapshot that
  -- passed.
  pub data IsValidated (found : Inputs) (r : Result (Unit {0}) × World Site) : Type 0 where
    stopped : (e : Error) → r.0 ≡ err e → r.1.now ≡ s0 → r.1.past ≡ [] → IsValidated found r
    published :
        (c : Configured) (pair : Snapshot) (name : String)
        → accept L found ≡ ok (c, pair)
        → IsChecked h L pair c.public true [] name
        → IsAtomic s0 pair r
        → IsValidated found r

module _ (h : Machine) (L : Library) (suffix : Site → String) (s0 : Site)
    (rooted : s0.root ≡ absent → s0.items ≡ []) where
  -- The owner's refresh changes no file.
  when-IsAtomic :
      (pair : Snapshot) (owner : Bool) (args : List String) (r : Result (Unit {0})) (w : World Site)
      → IsAtomic s0 pair (r, w)
      → IsAtomic s0 pair (continue (λ _. when owner (command h args)) r w)
  unfolding command pure
  when-IsAtomic pair owner args (err e) w a = a
  when-IsAtomic pair false args (ok _) w a = a
  when-IsAtomic pair true args (ok _) w (seen, e) = elim (Bool-cases (h.succeeds w.commands args)) [
    | inl f ↦ rw f (seen, e)
    | inr f ↦ rw f (seen, seen.0)
  ]

  serve-IsAtomic :
      (c : Configured) (pair : Snapshot) (commands : List (List String))
      → IsAtomic s0 pair (serve h L suffix c pair (start_of s0 commands))
  unfolding serve ◌>>=◌
  serve-IsAtomic c pair commands =
      let first = is_active_lem h "aura-derp.service" (start_of s0 commands) in
      let second =
        is_active_lem h "aura-rendezvous.service"
          (start_of s0 (commands ++ (question "aura-derp.service" ∷ []))) in
      rw (first, second)
        (when-IsAtomic pair c.owner _ _ _
          (publish_atomic h 0 suffix (ok pair.cert) (ok pair.key) _ s0 rooted _))

  IsValidated-of_after :
      (found : Inputs) (c : Configured) (pair : Snapshot) (r : Result (Unit {0}) × World Site)
      → accept L found ≡ ok (c, pair)
      → IsAfter h L pair c.public true s0 (λ _. IsAtomic s0 pair) [] r
      → IsValidated h L s0 found r
  IsValidated-of_after found c pair r accepted (refused e f same none_yet _) =
      stopped e f same none_yet
  IsValidated-of_after found c pair r accepted (passed name checked good) =
      published c pair name accepted checked good

  deploy-IsValidated :
      (found : Inputs) (c : Configured) (pair : Snapshot)
      → accept L found ≡ ok (c, pair)
      → IsValidated h L s0 found (deploy h L suffix c pair (start_of s0 []))
  unfolding deploy
  deploy-IsValidated found c pair accepted = IsValidated-of_after found c pair _ accepted (
      validate_pair-IsAfter h L pair c.public true s0 (λ _. IsAtomic s0 pair)
        (serve h L suffix c pair) [] (serve-IsAtomic c pair))

-- `main` of ip_deploy.py publishes only what it has validated. It stops with an error and every file
-- as it was; or its tests accepted the configuration and the files, `validate_pair` accepted the
-- snapshot for the configured address with both `openssl` commands successful, and then, whatever
-- calls the operating system refuses and whichever commands fail, each state serves the pair that was
-- served at the start or the whole pair of the snapshot, and the last state the latter where `main`
-- returns. The directory of an absent root is taken to list nothing.
pub main-IsValidated :
    (h : Machine) (L : Library) (suffix : Site → String) (s0 : Site) (found : Inputs)
    → (s0.root ≡ absent → s0.items ≡ [])
    → IsValidated h L s0 found
        (main h L suffix found (record { now = s0; past = []; commands = [] }))
unfolding main lift ◌>>=◌
main-IsValidated h L suffix s0 found rooted = elim (Result-cases (accept L found)) [
  | inr (e, f) ↦ rw f (stopped e refl refl refl)
  | inl ((c, pair), f) ↦ rw f (deploy-IsValidated h L suffix s0 rooted found c pair f)
]
