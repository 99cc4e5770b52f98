-- ===== src/SelfHosted/Taken.antt =====
-- What self_hosted.py writes for the renewal is a configuration that ip_deploy.py takes.
use aura_server.Base.{
  ℕ, ◌≡◌, refl, ap, ◌∙◌, String, ◌<>◌, false, some, List, ◌==◌, nat_eq, any, codes, ok, arith,
  ◌>>=◌, bind-eq-ok, raise_if-then, ok-injective,
}
use mathlib.Core.Path.{subst}
use aura_server.Base.Dict.{Dict, lookup}
use aura_server.Json.{Value}
use aura_server.Address.{ip_address-some, Address, Parser, ip_address, is_refused, public_ip}
use aura_server.Prepare.Render.{Library, item_of}
use aura_server.Prepare.Write.{loaded}
use aura_server.Deploy.Configuration.{configuration}
use aura_server.SelfHosted.{Home}
use aura_server.SelfHosted.Render.{renewal_file, home_files, render_home}
use aura_server.SelfHosted.Accepted.{IsPublic4, render_home-eq-ok}

-- `str` of an address parses as that address again; an IPv4 address has no scope; and `text` gives the
-- text of these code points.
pub record IsCanonical (parse : Parser) (text : List ℕ → String) : Type 0 where
  pub again : (value : List ℕ) (a : Address) → parse value ≡ some a → parse a.text ≡ some a
  pub unscoped :
      (value : List ℕ) (a : Address)
      → parse value ≡ some a
      → a.version ≡ 4
      → any (λ c. c == b'%') a.text ≡ false
  pub readable :
      (value : List ℕ) (a : Address) → parse value ≡ some a → codes (text a.text) ≡ a.text

public_ip-ok :
    (parse : Parser) (value : List ℕ) (a : Address)
    → parse value ≡ some a
    → is_refused value a ≡ false
    → public_ip parse value ≡ ok a.text
unfolding public_ip ip_address
public_ip-ok parse value a e free = rw (public_ip, ip_address, e, free) refl

unrefused :
    (given written : List ℕ) (a : Address)
    → is_refused given a ≡ false
    → any (λ c. c == b'%') written ≡ false
    → is_refused written a ≡ false
unrefused given written a h plain = ground (arith, h, plain)

-- What is written for the renewal, and what ip_deploy.py reads in it.
pub record IsTaken (L : Library) (files : Dict String) : Type 0 where
  pub value : Value
  pub public : String
  pub written : lookup "ip-renewal.json" files ≡ some (L.dumps value <> "\n")
  pub taken :
      (loaded (some value) >>= configuration L.parse)
      ≡ ok (record { public = public; lineage = "aura-home-ip"; owner = false })

module _ (L : Library) (text : List ℕ → String) (canonical : IsCanonical L.parse text) where
  -- A public address is one, as it is written.
  public_ip-again :
      (v : Value) (public : List ℕ)
      → IsPublic4 L v public
      → (codes (text public) ≡ public) × (public_ip L.parse public ≡ ok public)
  unfolding public_ip
  public_ip-again v public (s, address, _, given, parsed, four) =
      let (a, found, rest) = bind-eq-ok (ip_address L.parse (codes s)) _ given in
      let first = ip_address-some L.parse (codes s) found in
      let (allowed, last) = raise_if-then (is_refused (codes s) a) _ _ rest in
      let same : a.text ≡ public = ok-injective last in
      let again : L.parse public ≡ some a =
        subst (λ t. L.parse t ≡ some a) same (canonical.again (codes s) a first) in
      let is_four : a.version ≡ 4 = cc (again, parsed, four) in
      let plain : any (λ c. c == b'%') public ≡ false =
        subst (λ t. any (λ c. c == b'%') t ≡ false) same
          (canonical.unscoped (codes s) a first is_four) in
      (
        subst (λ t. codes (text t) ≡ t) same (canonical.readable (codes s) a first),
        public_ip-ok L.parse public a again (unrefused (codes s) public a allowed plain)
            ∙ ap ok same,
      )

  configuration-renewal_file :
      (public : List ℕ)
      → codes (text public) ≡ public
      → public_ip L.parse public ≡ ok public
      → (loaded (some (renewal_file (text public))) >>= configuration L.parse)
        ≡ ok (record { public = text public; lineage = "aura-home-ip"; owner = false })
  unfolding configuration item_of lookup
  configuration-renewal_file public readable good = rw (readable, good) refl

  home_files-IsTaken :
      (home : Home) (v : Value) → IsPublic4 L v home.public → IsTaken L (home_files L text home)
  unfolding home_files lookup
  home_files-IsTaken home v good =
      let (readable, again) = public_ip-again v home.public good in
      record {
        value = renewal_file (text home.public);
        public = text home.public;
        written = refl;
        taken = configuration-renewal_file home.public readable again;
      }

-- Where `render` of self_hosted.py gives files, ip-renewal.json is among them, and `configuration` of
-- ip_deploy.py accepts the value that is written there: for the public address of the layout, the lineage
-- aura-home-ip, and with the renewal of the owner's certificate not enabled. `str` of an address is
-- taken to parse as that address again, and that of an IPv4 address to have no scope.
pub render_home-IsTaken :
    (L : Library) (text : List ℕ → String) (config : Dict Value) (files : List (String × String))
    → IsCanonical L.parse text
    → render_home L text config ≡ ok files
    → IsTaken L files
render_home-IsTaken L text config files canonical h =
    let (home, good, made) = (render_home-eq-ok L text config files).0 h in
    subst (IsTaken L) made
      (home_files-IsTaken L text canonical home good.public_value good.public_good)
