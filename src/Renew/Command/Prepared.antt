-- ===== src/Renew/Command/Prepared.antt =====
-- What prepare.py writes for a host is a configuration that renew.py takes.
use aura_server.Base.{◌≡◌, refl, String, ◌<>◌, some, List, codes, string_eq, ok, ◌>>=◌}
use mathlib.Core.Path.{subst}
use aura_server.Base.Dict.{Dict, lookup}
use aura_server.Json.{Value}
use aura_server.Prepare.Hostname.{IsHostname}
use aura_server.Prepare.Render.{Library, renewal, item_of, Plan, plan_files, role_files, render}
use aura_server.Prepare.Planned.{AreNamed, hostname_named, render-eq-ok}
use aura_server.Prepare.Write.{loaded}
use aura_server.Renew.Validate
use aura_server.Renew.Command.{Role, owner, derp, rendezvous, role_of, configuration}

abbrev pub name_of : Role → String
name_of owner = "owner"
name_of derp = "derp"
name_of rendezvous = "rendezvous"

-- The host of a plan for each role.
abbrev pub host_of : Plan → Role → String
host_of p owner = p.owner
host_of p derp = p.derp
host_of p rendezvous = p.rendezvous

module _ (L : Library) (R : Validate.Library) (same : R.parse ≡ L.parse) where
  configuration-renewal :
      (role : Role) (host : String)
      → IsHostname L.parse (codes host)
      → (loaded (some (renewal (name_of role) host)) >>= configuration R) ≡ ok (role, host)
  unfolding configuration item_of role_of lookup
  configuration-renewal owner host good = rw (same, hostname_named L host host refl good) refl
  configuration-renewal derp host good = rw (same, hostname_named L host host refl good) refl
  configuration-renewal rendezvous host good = rw (same, hostname_named L host host refl good) refl

host_of-IsHostname :
    (L : Library) (p : Plan) (role : Role)
    → AreNamed L p
    → IsHostname L.parse (codes (host_of p role))
host_of-IsHostname L p owner named = named.owner_good
host_of-IsHostname L p derp named = named.derp_good
host_of-IsHostname L p rendezvous named = named.rendezvous_good

lookup-plan_files :
    (L : Library) (p : Plan) (role : Role)
    → lookup (name_of role <> "/renewal.json") (plan_files L p)
      ≡ some (L.dumps (renewal (name_of role) (host_of p role)) <> "\n")
unfolding plan_files role_files lookup
lookup-plan_files L p owner = refl
lookup-plan_files L p derp = refl
lookup-plan_files L p rendezvous = refl

-- The value that is written for a role, and that renew.py takes it for that role.
pub record IsTaken (L : Library) (R : Validate.Library) (files : Dict String) (role : Role)
    : Type 0 where
  pub value : Value
  pub host : String
  pub written : lookup (name_of role <> "/renewal.json") files ≡ some (L.dumps value <> "\n")
  pub taken : (loaded (some value) >>= configuration R) ≡ ok (role, host)

-- Where `render` of prepare.py gives files, each of the three roles has its renewal.json among them, and
-- the tests that `main` of renew.py makes on a configuration accept the value that is written there, for
-- that very role. The two scripts are taken to share `ipaddress`.
pub render-IsTaken :
    (L : Library) (R : Validate.Library) (config : Dict Value) (files : List (String × String))
    → R.parse ≡ L.parse
    → render L config ≡ ok files
    → (role : Role) → IsTaken L R files role
render-IsTaken L R config files same h role =
    let (p, _, named, made) = (render-eq-ok L config files).0 h in
    subst (λ files. IsTaken L R files role) made
      (record {
        value = renewal (name_of role) (host_of p role);
        host = host_of p role;
        written = lookup-plan_files L p role;
        taken =
            configuration-renewal L R same role (host_of p role)
              (host_of-IsHostname L p role named);
      })
