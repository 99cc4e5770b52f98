-- ===== src/SelfHosted/Accepted.antt =====
-- The configurations that `render` of self_hosted.py accepts.
use aura_server.Base.{
  ℕ, ◌≤◌, ◌≡◌, ◌↔◌, refl, ap, ◌∙◌, inl, inr, String, true, not, some, List, ◌==◌, nat_eq,
  nat_equals_iff, codes, Result-cases, ok, bind-eq-ok, raise_if-then, ok-injective,
}
use mathlib.Core.Path.{subst}
use aura_server.Base.Dict.{Dict, keys, lookup, same_set}
use aura_server.Json.{Value, str}
use aura_server.Address.{
  ip_address-some, Address, ip_address, public_ip, is_private, IsPrivate, is_private-IsPrivate,
}
use aura_server.Prepare.Render.{Library, item_of, is_one, ipv4_address, region_id, number}
use aura_server.Prepare.Fields.{
  of_not, item_of-eq-ok, item_of-some, is_one-number, region_id-eq-ok, region_id-number,
}
use aura_server.SelfHosted.{
  required, public_ipv4, private_ipv4, region, is_media_root, media_root, Home, check_config,
}
use aura_server.SelfHosted.Render.{home_files, render_home}

-- A text of a public IPv4 address, and the address as it is written.
abbrev pub IsPublic4 : Library → Value → List ℕ → Type 0
IsPublic4 L value public =
    (s : String) × (address : Address) × (value ≡ str s)
    × (public_ip L.parse (codes s) ≡ ok public)
    × (L.parse public ≡ some address)
    × (address.version ≡ 4)

IsPublic4-of_ok :
    (L : Library) (v : Value) (public : List ℕ) → public_ipv4 L v ≡ ok public → IsPublic4 L v public
unfolding public_ipv4
IsPublic4-of_ok L (str s) public h =
    let (a, p, g1) = bind-eq-ok (public_ip L.parse (codes s)) _ h in
    let (address, q, g2) = bind-eq-ok (ip_address L.parse a) _ g1 in
    let (four, g3) = raise_if-then (not (address.version == 4)) _ _ g2 in
    let same : a ≡ public = ok-injective g3 in
    (
      s,
      address,
      refl,
      p ∙ ap ok same,
      subst (λ a. L.parse a ≡ some address) same (ip_address-some L.parse a q),
      (nat_equals_iff address.version 4).0 (of_not _ four),
    )
IsPublic4-of_ok L _ public h = absurd (cc h)

ok_of_IsPublic4 :
    (L : Library) (v : Value) (public : List ℕ) → IsPublic4 L v public → public_ipv4 L v ≡ ok public
unfolding public_ipv4 ip_address
ok_of_IsPublic4 L v public (s, address, e, p, q, four) =
    let is_four = (nat_equals_iff address.version 4).1 four in
    rw (e, public_ipv4, p, ip_address, q, is_four) refl

private_ipv4-eq-ok :
    (L : Library) (v : Value) (lan : ℕ)
    → (private_ipv4 L v ≡ ok lan) ↔ ((ipv4_address L v ≡ ok lan) × IsPrivate lan)
unfolding private_ipv4
private_ipv4-eq-ok L v lan = (
  λ h.
      let (a, parsed, h1) = bind-eq-ok (ipv4_address L v) _ h in
      let (inside, h2) = raise_if-then (not (is_private a)) _ _ h1 in
      let same : a ≡ lan = ok-injective h2 in
      (parsed ∙ ap ok same, subst IsPrivate same ((is_private-IsPrivate a).0 (of_not _ inside))),
  λ (parsed, inside). rw (parsed, (is_private-IsPrivate lan).1 inside) refl,
)

region-eq-ok : (v : Value) (n : ℕ) → region v ≡ ok n → region_id v ≡ ok n
unfolding region
region-eq-ok v n h = elim (Result-cases (region_id v)) [
  | inl (m, e) ↦ e ∙ ap ok (ok-injective (rw (e, region) at h))
  | inr (x, e) ↦ absurd (cc (rw (e, region) at h))
]

region-number : (n : ℕ) → 1 ≤ n → n ≤ 65535 → region (number n) ≡ ok n
unfolding region
region-number n low high = rw (region, region_id-number n low high) refl

media_root-str : (s : String) → is_media_root (codes s) ≡ true → media_root (str s) ≡ ok s
unfolding media_root
media_root-str s h = rw h refl

media_root-eq-ok :
    (v : Value) (s : String) → media_root v ≡ ok s → (v ≡ str s) × (is_media_root (codes s) ≡ true)
unfolding media_root
media_root-eq-ok (str t) s h =
    let (good, g) = raise_if-then (not (is_media_root (codes t))) _ _ h in
    let same : t ≡ s = ok-injective g in
    (ap str same, subst (λ t. is_media_root (codes t) ≡ true) same (of_not _ good))
media_root-eq-ok _ s h = absurd (cc h)

-- A configuration with exactly the five fields, each as it should be, and what it gives.
pub record IsHome (L : Library) (config : Dict Value) (home : Home) : Type 0 where
  pub fields : same_set (keys config) required ≡ true
  pub version : lookup "version" config ≡ some (number 1)
  pub public_value : Value
  pub public : lookup "publicIPv4" config ≡ some public_value
  pub public_good : IsPublic4 L public_value home.public
  pub lan_value : Value
  pub lan : lookup "lanIPv4" config ≡ some lan_value
  pub lan_good : (ipv4_address L lan_value ≡ ok home.lan) × IsPrivate home.lan
  pub region : lookup "regionId" config ≡ some (number home.region_number)
  pub region_good : (1 ≤ home.region_number) × (home.region_number ≤ 65535)
  pub media : lookup "mediaRoot" config ≡ some (str home.media)
  pub media_good : is_media_root (codes home.media) ≡ true

IsHome-of_ok :
    (L : Library) (config : Dict Value) (home : Home)
    → check_config L config ≡ ok home
    → IsHome L config home
unfolding check_config
IsHome-of_ok L config home h0 =
    let (fields, h1) = raise_if-then (not (same_set (keys config) required)) _ _ h0 in
    let (version, v, h2) = bind-eq-ok (item_of config "version") _ h1 in
    let (one, h3) = raise_if-then (not (is_one version)) _ _ h2 in
    let (public_value, p, h4) = bind-eq-ok (item_of config "publicIPv4") _ h3 in
    let (public, public_good, h5) = bind-eq-ok (public_ipv4 L public_value) _ h4 in
    let (lan_value, l, h6) = bind-eq-ok (item_of config "lanIPv4") _ h5 in
    let (lan, lan_good, h7) = bind-eq-ok (private_ipv4 L lan_value) _ h6 in
    let (region_value, r, h8) = bind-eq-ok (item_of config "regionId") _ h7 in
    let (n, numbered, h9) = bind-eq-ok (region region_value) _ h8 in
    let (media_value, m, h10) = bind-eq-ok (item_of config "mediaRoot") _ h9 in
    let (media, media_good, h11) = bind-eq-ok (media_root media_value) _ h10 in
    let (is_n, low, high) = region_id-eq-ok region_value n (region-eq-ok region_value n numbered) in
    let (is_media, fit) = media_root-eq-ok media_value media media_good in
    subst (IsHome L config) (ok-injective h11) (record {
      fields = of_not _ fields;
      version =
          item_of-eq-ok config "version" version v ∙ ap some (is_one-number version (of_not _ one));
      public_value = public_value;
      public = item_of-eq-ok config "publicIPv4" public_value p;
      public_good = IsPublic4-of_ok L public_value public public_good;
      lan_value = lan_value;
      lan = item_of-eq-ok config "lanIPv4" lan_value l;
      lan_good = (private_ipv4-eq-ok L lan_value lan).0 lan_good;
      region = item_of-eq-ok config "regionId" region_value r ∙ ap some is_n;
      region_good = (low, high);
      media = item_of-eq-ok config "mediaRoot" media_value m ∙ ap some is_media;
      media_good = fit;
    })

ok_of_IsHome :
    (L : Library) (config : Dict Value) (home : Home)
    → IsHome L config home
    → check_config L config ≡ ok home
unfolding check_config
ok_of_IsHome L config home x =
    rw
      (
        x.fields,
        item_of-some config "version" _ x.version,
        item_of-some config "publicIPv4" _ x.public,
        ok_of_IsPublic4 L x.public_value home.public x.public_good,
        item_of-some config "lanIPv4" _ x.lan,
        (private_ipv4-eq-ok L x.lan_value home.lan).1 x.lan_good,
        item_of-some config "regionId" _ x.region,
        region-number home.region_number x.region_good.0 x.region_good.1,
        item_of-some config "mediaRoot" _ x.media,
        media_root-str home.media x.media_good,
      )
      refl

-- `render` of self_hosted.py gives files exactly for a configuration with the five fields and no
-- other, each as it should be: version 1, a text of a public IPv4 address, an address of RFC 1918, a
-- region from 1 to 65535 and a media root that the pattern matches; and the files are those of these
-- values.
pub render_home-eq-ok :
    (L : Library) (text : List ℕ → String) (config : Dict Value) (files : List (String × String))
    → (render_home L text config ≡ ok files)
      ↔ ((home : Home) × IsHome L config home × (home_files L text home ≡ files))
unfolding render_home
render_home-eq-ok L text config files = (
  λ h.
      let (home, good, g) = bind-eq-ok (check_config L config) _ h in
      (home, IsHome-of_ok L config home good, ok-injective g),
  λ (home, good, made). rw (ok_of_IsHome L config home good, made) refl,
)
