-- ===== src/Watch/Enforce.antt =====
-- `enforce` of wan_watch.py.
use aura_server.Base.{
  ℕ, ◌≡◌, refl, ◌≢◌, ◌∙◌, ap, ◌⊎◌, inl, inr, String, true, Bool-cases, Option, some, List, [], ◌∷◌,
  ◌++◌, ◌==◌, nat_eq, list_eq, list_equals_iff, length, map, if◌then◌else◌, Error, Result,
  Result-cases, ok, err, value_error, os_error,
}
use mathlib.Core.List.{append_assoc, append-nil}
use aura_server.Address.{Parser, public_ip}
use aura_server.Script.{
  World, Machine, Script, pure, throw, lift, ◌>>=◌, ◌>>◌, try_except, for_each, change, command,
}

-- The quarantine file, with its bytes where it is there.
abbrev pub Marker : Type 0
Marker = Option String

abbrev pub repair_text : String
repair_text =
    "WAN address changed. Offline certificate/relay review and explicit fresh pairing required.\n"

abbrev pub services : List String
services = "aura-server.service" ∷ "aura-rendezvous.service" ∷ "aura-derp.service" ∷ []

abbrev pub stop_command : String → List String
stop_command service = "systemctl" ∷ "--no-block" ∷ "stop" ∷ service ∷ []

-- A write to the marker; `keep` where the call changes nothing and may fail (`fchmod`, `fsync`).
abbrev pub write : Machine → Marker → Script Marker (Unit {0})
write h marker = change h (λ _. ok marker)

abbrev pub keep : Machine → Script Marker (Unit {0})
keep h = change h ok

unfoldable pub stop_one : Machine → String → Script Marker (Unit {0})
stop_one h service = try_except (command h (stop_command service)) (λ _. pure tt)

unfoldable pub quarantine : Machine → Script Marker (Unit {0})
quarantine h = do
  write h (some "")
  keep h
  write h (some repair_text)
  keep h
  keep h
  for_each (stop_one h) services
  throw (value_error "Address change requires repair")

unfoldable pub enforce : Machine → Parser → List ℕ → List ℕ → Script Marker (Unit {0})
enforce h parse expected observed = do
  lift (public_ip parse expected)
  lift (public_ip parse observed)
  if expected == observed then pure tt else quarantine h

module _ (h : Machine) where
  stop_one_lem :
      (service : String) (w : World Marker)
      → stop_one h service w
        ≡ (ok tt, record w { commands = w.commands ++ (stop_command service ∷ []) })
  unfolding stop_one try_except command pure
  stop_one_lem service w = elim (Bool-cases (h.succeeds w.commands (stop_command service))) [
    | inl e ↦ rw e refl
    | inr e ↦ rw e refl
  ]

  -- Every service is stopped, however the commands end.
  stop_all :
      (names : List String) (w : World Marker)
      → for_each (stop_one h) names w
        ≡ (ok tt, record w { commands = w.commands ++ map stop_command names })
  unfolding for_each pure ◌>>=◌
  stop_all [] w = rw (append-nil w.commands) refl
  stop_all (name ∷ names) w = rw (stop_one_lem name w) (
      stop_all names _
      ∙ rw (append_assoc w.commands (stop_command name ∷ []) (map stop_command names)) refl)

  -- A run that stops at a change that is refused, with no command run; or with the marker written and
  -- every service told to stop.
  abbrev pub IsQuarantined : List (List String) → Result (Unit {0}) × World Marker → Type 0
  IsQuarantined before r =
      ((e : Error) × (r.0 ≡ err e))
      × (((n : ℕ) × (h.refuses n ≡ true) × (r.1.commands ≡ before))
          ⊎ ((r.1.now ≡ some repair_text) × (r.1.commands ≡ before ++ map stop_command services)))

  after_change :
      (before : List (List String)) (g : Marker → Marker) (rest : Script Marker (Unit {0}))
      (w : World Marker)
      → w.commands ≡ before
      → ((w' : World Marker)
          → w'.commands ≡ before
          → w'.now ≡ g w.now
          → IsQuarantined before (rest w'))
      → IsQuarantined before ((change h (λ s. ok (g s)) >> rest) w)
  unfolding change ◌>>=◌
  after_change before g rest w same k = elim (Bool-cases (h.refuses (length w.past))) [
    | inl e ↦ rw e ((os_error "OSError", refl), inl (length w.past, e, same))
    | inr e ↦ rw e (k (record w { now = g w.now; past = w.now ∷ w.past }) same refl)
  ]

  stops-IsQuarantined :
      (before : List (List String)) (w : World Marker)
      → w.commands ≡ before
      → w.now ≡ some repair_text
      → IsQuarantined before (
          (for_each (stop_one h) services >> throw (value_error "Address change requires repair"))
            w)
  unfolding ◌>>=◌ throw
  stops-IsQuarantined before w same marked = rw (stop_all services w) (
    (value_error "Address change requires repair", refl),
    inr (marked, ap (λ c. c ++ map stop_command services) same),
  )

  quarantine-IsQuarantined : (w : World Marker) → IsQuarantined w.commands (quarantine h w)
  unfolding quarantine
  quarantine-IsQuarantined w =
      after_change w.commands (λ _. some "") _ w refl
        λ w1 c1 n1.
          after_change w.commands (λ s. s) _ w1 c1
            λ w2 c2 n2.
              after_change w.commands (λ _. some repair_text) _ w2 c2
                λ w3 c3 n3.
                  after_change w.commands (λ s. s) _ w3 c3
                    λ w4 c4 n4.
                      after_change w.commands (λ s. s) _ w4 c4
                        λ w5 c5 n5. stops-IsQuarantined w.commands w5 c5 (n5 ∙ (n4 ∙ n3))

  -- `enforce` on every branch: an address that is not public is an error, and nothing is written or
  -- run; equal addresses end well, and nothing is written or run; different ones end in an error,
  -- and either the system refused a change and no command was run, or the marker has its whole text
  -- and each of the three services was told to stop once, in order, however those commands ended.
  pub enforce_lem :
      (parse : Parser) (expected observed : List ℕ) (w : World Marker)
      → ((e : Error) × (enforce h parse expected observed w ≡ (err e, w))
          × ((public_ip parse expected ≡ err e) ⊎ (public_ip parse observed ≡ err e)))
        ⊎ ((expected ≡ observed) × (enforce h parse expected observed w ≡ (ok tt, w)))
        ⊎ ((expected ≢ observed) × IsQuarantined w.commands (enforce h parse expected observed w))
  unfolding enforce ◌>>=◌ lift pure
  enforce_lem parse expected observed w = elim (Result-cases (public_ip parse expected)) [
    | inr (e, p) ↦ inl (e, rw p refl, inl p)
    | inl (a, p) ↦ elim (Result-cases (public_ip parse observed)) [
      | inr (e, q) ↦ inl (e, rw (p, q) refl, inr q)
      | inl (b, q) ↦ elim (Bool-cases (expected == observed)) [
        | inl s ↦ inr (inl ((list_equals_iff expected observed).0 s, rw (p, q, s) refl))
        | inr s ↦ inr (
            inr (
              λ same. absurd (cc (s, (list_equals_iff expected observed).1 same)),
              rw (p, q, s) (quarantine-IsQuarantined w),
            ))
      ]
    ]
  ]
