-- ===== src/Deploy/Returns.antt =====
-- ip_deploy.py's `main` where nothing is refused.
use aura_server.Base.{
  ◌≡◌, refl, sym, ap, ◌∙◌, String, ◌<>◌, Bool, true, false, none, [], all, contains, Result, ok,
  ok-injective,
}
use mathlib.Core.Path.{subst}
use aura_server.Base.Dict.{lookup}
use aura_server.Script.{World, Machine}
use aura_server.Script.Total.{
  IsWilling, Works, Works-bind, Works-lift, Works-command, Works-assume, Works-when, Ends-ok,
  result_of,
}
use aura_server.Renew.Validate.{Library, Snapshot, check_pair}
use aura_server.Renew.Validate.Total.{validate_pair-Works, is_active-Works}
use aura_server.Deploy.Site.{Site}
use aura_server.Deploy.Publish.{services}
use aura_server.Deploy.Publish.Live.{Published}
use aura_server.Deploy.Publish.Returns.{IsUsable, IsUsable-rooted, publish-Works}
use aura_server.Deploy.Configuration.{Configured, Inputs, accept}
use aura_server.Deploy.Command.{chosen, serve, deploy, main}
use aura_server.Deploy.Validated.{IsValidated, stopped, published, main-IsValidated}

chosen_known : (a b : Bool) → all (contains services) (chosen a b) ≡ true
chosen_known true true = refl
chosen_known true false = refl
chosen_known false true = refl
chosen_known false false = refl

module _ (h : Machine) (L : Library) (suffix : Site → String) (s0 : Site) (willing : IsWilling h)
    (new : (s : Site) → lookup ("pair-" <> suffix s) s.items ≡ none) (usable : IsUsable 0 s0) where
  serve-Works :
      (c : Configured) (pair : Snapshot)
      → Works (λ s. s ≡ s0) (serve h L suffix c pair) (λ _ _. Unit {0})
  unfolding serve
  serve-Works c pair =
      Works-bind (λ _ s. s ≡ s0) _ _ (is_active-Works h willing _ _)
        λ derp.
          Works-bind (λ _ s. s ≡ s0) _ _ (is_active-Works h willing _ _)
            λ rendezvous.
              Works-bind (λ _ _. Unit {0}) _ _
                (publish-Works h 0 suffix pair.cert pair.key (chosen derp rendezvous) s0 willing new
                  (chosen_known derp rendezvous) usable)
                λ _. Works-when c.owner _ (Works-command h willing (λ _. Unit {0}) _ (λ s p. p))

  main-Works :
      (found : Inputs) (c : Configured) (pair : Snapshot) (name : String)
      → accept L found ≡ ok (c, pair)
      → check_pair L pair c.public true ≡ ok name
      → Works (λ s. s ≡ s0) (main h L suffix found) (λ _ _. Unit {0})
  unfolding main deploy
  main-Works found c pair name accepted good =
      Works-bind (λ a s. (a ≡ (c, pair)) × (s ≡ s0)) _ _
        (Works-lift _ (c, pair) accepted (λ s p. (refl, p)))
        λ a. Works-assume _ (a ≡ (c, pair)) λ same.
          subst
            (λ (a : Configured × Snapshot).
              Works (λ s. s ≡ s0) (deploy h L suffix a.0 a.1) (λ _ _. Unit {0}))
            (sym same)
            (Works-bind (λ _ s. s ≡ s0) _ _
              (validate_pair-Works h willing (λ s. s ≡ s0) L pair c.public true name good)
              λ _. serve-Works c pair)

served_at :
    (h : Machine) (L : Library) (s0 : Site) (found : Inputs) (c : Configured) (pair : Snapshot)
    (r : Result (Unit {0}) × World Site)
    → accept L found ≡ ok (c, pair)
    → r.0 ≡ ok tt
    → IsValidated h L s0 found r
    → Published (ok pair.cert) (ok pair.key) s0.items r.1.now
served_at h L s0 found c pair r accepted e (stopped x f _ _) = absurd (cc (e, f))
served_at h L s0 found c pair r accepted e (published c' pair' name accepted' _ (_, ends)) =
    let same : (c', pair') ≡ (c, pair) = ok-injective (sym accepted' ∙ accepted) in
    subst (λ (p : Snapshot). Published (ok p.cert) (ok p.key) s0.items r.1.now)
      (ap (λ (a : Configured × Snapshot). a.1) same) (Ends-ok _ _ r tt e ends)

-- `main` of ip_deploy.py renews the certificate: where its tests accept the configuration and the
-- files, and those of `validate_pair` the snapshot, the publication directory can be used, the system refuses nothing, each command
-- succeeds, and `mkdtemp` chooses a name that is not taken, it returns, the whole pair of the snapshot is
-- served, and the pair that `current` named before stands as it was.
pub deploy_total :
    (h : Machine) (L : Library) (suffix : Site → String) (s0 : Site) (found : Inputs)
    (c : Configured) (pair : Snapshot) (name : String)
    → IsWilling h
    → ((s : Site) → lookup ("pair-" <> suffix s) s.items ≡ none)
    → IsUsable 0 s0
    → accept L found ≡ ok (c, pair)
    → check_pair L pair c.public true ≡ ok name
    → let r = main h L suffix found (record { now = s0; past = []; commands = [] }) in
      (r.0 ≡ ok tt) × Published (ok pair.cert) (ok pair.key) s0.items r.1.now
deploy_total h L suffix s0 found c pair name willing new usable accepted good =
    let w : World Site = record { now = s0; past = []; commands = [] } in
    let (_, e) =
      result_of w (main-Works h L suffix s0 willing new usable found c pair name accepted good)
        refl in
    (
      e,
      served_at h L s0 found c pair (main h L suffix found w) accepted e
          (main-IsValidated h L suffix s0 found (IsUsable-rooted 0 s0 usable)),
    )
