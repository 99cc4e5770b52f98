-- ===== src/Prepare/Planned.antt =====
-- The configurations that `render` of prepare.py accepts.
use aura_server.Base.{
  ◌≤◌, ◌≡◌, ◌↔◌, refl, ap, sym, ◌∙◌, String, ◌<>◌, true, not, ◌&&◌, some, List, length, all, ◌==◌,
  nat_eq, string_eq, codes, is_hex, ok, raise_if-then, bind-eq-ok, ok-injective,
}
use mathlib.Core.Path.{subst}
use aura_server.Base.Dict.{Dict, keys, lookup, same_set}
use aura_server.Json.{Value, str}
use aura_server.Prepare.{hostname}
use aura_server.Prepare.Hostname.{IsHostname, hostname-eq-ok}
use aura_server.Prepare.Render.{
  Library, item_of, is_one, server_id, region_id, required, Checked, Plan, check_addresses,
  check_config, name_hosts, plan_files, render, number,
}
use aura_server.Prepare.Fields.{
  AreApart, of_not, item_of-eq-ok, item_of-some, is_one-number, server_id-eq-ok, server_id-str,
  region_id-eq-ok, region_id-number, check_addresses-eq-ok,
}

-- A configuration with exactly the seven fields, each as it should be, and what it gives.
pub record IsChecked (L : Library) (config : Dict Value) (c : Checked) : Type 0 where
  pub fields : same_set (keys config) required ≡ true
  pub version : lookup "version" config ≡ some (number 1)
  pub domain : lookup "domain" config ≡ some (str c.domain)
  pub domain_good : IsHostname L.parse (codes c.domain)
  pub id : lookup "serverId" config ≡ some (str c.id)
  pub id_good : (length (codes c.id) == 32 && all is_hex (codes c.id)) ≡ true
  pub derp : lookup "derpIPv4" config ≡ some c.derp_ip
  pub rendezvous : lookup "rendezvousIPv4" config ≡ some c.rendezvous_ip
  pub owner_ip : Value
  pub owner : lookup "ownerLANIPv4" config ≡ some owner_ip
  pub apart : AreApart L c.derp_ip c.rendezvous_ip owner_ip c.lan
  pub region : lookup "regionId" config ≡ some (number c.region)
  pub region_good : (1 ≤ c.region) × (c.region ≤ 65535)

-- The names of the three hosts below the domain are hostnames themselves.
pub record AreNamed (L : Library) (p : Plan) : Type 0 where
  pub derp : p.derp ≡ "relay." <> p.given.domain
  pub derp_good : IsHostname L.parse (codes p.derp)
  pub rendezvous : p.rendezvous ≡ "pairing." <> p.given.domain
  pub rendezvous_good : IsHostname L.parse (codes p.rendezvous)
  pub owner : p.owner ≡ p.given.id <> (".server." <> p.given.domain)
  pub owner_good : IsHostname L.parse (codes p.owner)

hostname-str :
    (L : Library) (s r : String)
    → hostname L.parse (str s) ≡ ok r
    → (r ≡ s) × IsHostname L.parse (codes r)
hostname-str L s r h = let (e, good) = (hostname-eq-ok L.parse (str s) r).0 h in (cc e, good)

pub hostname_named :
    (L : Library) (s r : String)
    → r ≡ s
    → IsHostname L.parse (codes r)
    → hostname L.parse (str s) ≡ ok r
hostname_named L s r e good = (hostname-eq-ok L.parse (str s) r).1 (ap str (sym e), good)

AreNamed-of_ok :
    (L : Library) (c : Checked) (p : Plan) → name_hosts L c ≡ ok p → (p.given ≡ c) × AreNamed L p
unfolding name_hosts
AreNamed-of_ok L c p h0 =
    let (derp, d, h1) = bind-eq-ok (hostname L.parse (str ("relay." <> c.domain))) _ h0 in
    let (rendezvous, r, h2) = bind-eq-ok (hostname L.parse (str ("pairing." <> c.domain))) _ h1 in
    let (owner, o, h3) =
      bind-eq-ok (hostname L.parse (str (c.id <> (".server." <> c.domain)))) _ h2 in
    let (derp_named, derp_good) = hostname-str L _ derp d in
    let (rendezvous_named, rendezvous_good) = hostname-str L _ rendezvous r in
    let (owner_named, owner_good) = hostname-str L _ owner o in
    subst (λ p. (p.given ≡ c) × AreNamed L p) (ok-injective h3)
      (
        refl,
        record {
          derp = derp_named;
          derp_good = derp_good;
          rendezvous = rendezvous_named;
          rendezvous_good = rendezvous_good;
          owner = owner_named;
          owner_good = owner_good;
        },
      )

ok_of_AreNamed : (L : Library) (p : Plan) → AreNamed L p → name_hosts L p.given ≡ ok p
unfolding name_hosts
ok_of_AreNamed L p x =
    rw
      (
        hostname_named L _ p.derp x.derp x.derp_good,
        hostname_named L _ p.rendezvous x.rendezvous x.rendezvous_good,
        hostname_named L _ p.owner x.owner x.owner_good,
      )
      refl

module _ (L : Library) (config : Dict Value) (c : Checked) where
  IsChecked-of_ok : check_config L config ≡ ok c → IsChecked L config c
  unfolding check_config
  IsChecked-of_ok h0 =
      let (fields, h1) = raise_if-then (not (same_set (keys config) required)) _ _ h0 in
      let (v, v_given, h2) = bind-eq-ok (item_of config "version") _ h1 in
      let (one, h3) = raise_if-then (not (is_one v)) _ _ h2 in
      let (d, d_given, h4) = bind-eq-ok (item_of config "domain") _ h3 in
      let (domain, d_good, h5) = bind-eq-ok (hostname L.parse d) _ h4 in
      let (i, i_given, h6) = bind-eq-ok (item_of config "serverId") _ h5 in
      let (id, i_good, h7) = bind-eq-ok (server_id i) _ h6 in
      let (di, di_given, h8) = bind-eq-ok (item_of config "derpIPv4") _ h7 in
      let (ri, ri_given, h9) = bind-eq-ok (item_of config "rendezvousIPv4") _ h8 in
      let (oi, oi_given, h10) = bind-eq-ok (item_of config "ownerLANIPv4") _ h9 in
      let (lan, apart, h11) = bind-eq-ok (check_addresses L di ri oi) _ h10 in
      let (rv, rv_given, h12) = bind-eq-ok (item_of config "regionId") _ h11 in
      let (region, rv_good, h13) = bind-eq-ok (region_id rv) _ h12 in
      let (domain_is, domain_good) = (hostname-eq-ok L.parse d domain).0 d_good in
      let (id_is, id_good) = server_id-eq-ok i id i_good in
      let (region_is, low, high) = region_id-eq-ok rv region rv_good in
      subst (IsChecked L config) (ok-injective h13) (record {
        fields = of_not (same_set (keys config) required) fields;
        version =
            item_of-eq-ok config "version" v v_given
            ∙ ap some (is_one-number v (of_not (is_one v) one));
        domain = item_of-eq-ok config "domain" d d_given ∙ ap some domain_is;
        domain_good = domain_good;
        id = item_of-eq-ok config "serverId" i i_given ∙ ap some id_is;
        id_good = id_good;
        derp = item_of-eq-ok config "derpIPv4" di di_given;
        rendezvous = item_of-eq-ok config "rendezvousIPv4" ri ri_given;
        owner_ip = oi;
        owner = item_of-eq-ok config "ownerLANIPv4" oi oi_given;
        apart = (check_addresses-eq-ok L di ri oi lan).0 apart;
        region = item_of-eq-ok config "regionId" rv rv_given ∙ ap some region_is;
        region_good = (low, high);
      })

  ok_of_IsChecked : IsChecked L config c → check_config L config ≡ ok c
  unfolding check_config
  ok_of_IsChecked x =
      rw
        (
          x.fields,
          item_of-some config "version" _ x.version,
          item_of-some config "domain" _ x.domain,
          (hostname-eq-ok L.parse (str c.domain) c.domain).1 (refl, x.domain_good),
          item_of-some config "serverId" _ x.id,
          server_id-str c.id x.id_good,
          item_of-some config "derpIPv4" _ x.derp,
          item_of-some config "rendezvousIPv4" _ x.rendezvous,
          item_of-some config "ownerLANIPv4" _ x.owner,
          (check_addresses-eq-ok L c.derp_ip c.rendezvous_ip x.owner_ip c.lan).1 x.apart,
          item_of-some config "regionId" _ x.region,
          region_id-number c.region x.region_good.0 x.region_good.1,
        )
        refl

-- `render` of prepare.py gives files exactly if the configuration has the seven fields and no other, version
-- 1, a permanent domain, an identifier of 32 hexadecimal digits, two global addresses that differ as
-- values, an owner's address within RFC 1918, a region from 1 to 65535, and the three names below the
-- domain are hostnames too; the files are then those of these names, addresses and region.
pub render-eq-ok :
    (L : Library) (config : Dict Value) (files : List (String × String))
    → (render L config ≡ ok files)
      ↔ ((p : Plan) × IsChecked L config p.given × AreNamed L p × (plan_files L p ≡ files))
unfolding render
render-eq-ok L config files = (
  λ h.
      let (c, e, g) = bind-eq-ok (check_config L config) _ h in
      let (p, f, k) = bind-eq-ok (name_hosts L c) _ g in
      let (same, named) = AreNamed-of_ok L c p f in
      (
        p,
        subst (IsChecked L config) (sym same) (IsChecked-of_ok L config c e),
        named,
        ok-injective k,
      ),
  λ (p, x, y, e). rw (ok_of_IsChecked L config p.given x, ok_of_AreNamed L p y) (ap ok e),
)
