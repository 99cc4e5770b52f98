-- ===== src/Deploy/Command.antt =====
-- `main` of ip_deploy.py: the tests, the validation, the publication, and the owner's refresh.
use aura_server.Base.{String, Bool, true, false, List, [], ◌∷◌, ok}
use aura_server.Script.{Machine, Script, lift, ◌>>=◌, ◌>>◌, when, command}
use aura_server.Renew.Validate.{Library, Snapshot}
use aura_server.Renew.Validate.Commands.{validate_pair, is_active}
use aura_server.Deploy.Site.{Site}
use aura_server.Deploy.Publish.{publish}
use aura_server.Deploy.Configuration.{Configured, Inputs, accept}

-- The services that were active, of the two.
abbrev pub chosen : Bool → Bool → List String
chosen true true = "aura-derp.service" ∷ "aura-rendezvous.service" ∷ []
chosen true false = "aura-derp.service" ∷ []
chosen false true = "aura-rendezvous.service" ∷ []
chosen false false = []

module _ (h : Machine) (L : Library) (suffix : Site → String) where
  -- With a pair that was validated.
  unfoldable pub serve : Configured → Snapshot → Script Site (Unit {0})
  serve c pair = do
    derp ← is_active h "aura-derp.service"
    rendezvous ← is_active h "aura-rendezvous.service"
    publish h 0 suffix (ok pair.cert) (ok pair.key) (chosen derp rendezvous)
    when c.owner (command h ("systemctl" ∷ "start" ∷ "aura-owner-tls-refresh.service" ∷ []))

  -- From the snapshot on.
  unfoldable pub deploy : Configured → Snapshot → Script Site (Unit {0})
  deploy c pair = do validate_pair h L pair c.public true; serve c pair

  unfoldable pub main : Inputs → Script Site (Unit {0})
  main found = do accepted ← lift (accept L found); deploy accepted.0 accepted.1
