-- ===== src/Prepare/Fields.antt =====
-- The tests that `render` of prepare.py makes on single fields.
use aura_server.Base.{
  ℕ, ◌≤◌, ◌≡◌, ◌↔◌, inl, inr, refl, ap, ◌∙◌, String, Bool, true, false, not, ◌&&◌, ◌||◌, some,
  length, all, leb, ◌==◌, nat_eq, string_eq, codes, is_hex, Option-cases, ok, raise_if-ok,
  raise_if-then, bind-eq-ok, ok-injective, arith,
}
use mathlib.Core.Path.{subst}
use aura_server.Base.Dict.{Dict, lookup}
use aura_server.Json.{Value, null, bool, int, pos, negsuc, float, str, array, object, value_eq}
use aura_server.Address.{is_private, IsPrivate, is_private-IsPrivate}
use aura_server.Prepare.Render.{
  Library, item_of, ipv4_address, is_multicast, check_public, is_one, server_id, region_id,
  check_addresses, number,
}

-- A global address that is no multicast one.
abbrev pub IsPublic : Library → Value → Type 0
IsPublic L v =
    (a : ℕ) × (ipv4_address L v ≡ ok a) × (L.is_global a ≡ true) × (is_multicast a ≡ false)

-- The addresses of a configuration, and the LAN address that they give.
pub record AreApart (L : Library) (derp rendezvous owner : Value) (lan : ℕ) : Type 0 where
  pub derp_public : IsPublic L derp
  pub rendezvous_public : IsPublic L rendezvous
  pub separate : value_eq derp rendezvous ≡ false
  pub parsed : ipv4_address L owner ≡ ok lan
  pub private : IsPrivate lan

pub of_not : (b : Bool) → not b ≡ false → b ≡ true
of_not true h = refl
of_not false h = absurd (cc h)

pub item_of-eq-ok :
    (config : Dict Value) (key : String) (v : Value)
    → item_of config key ≡ ok v
    → lookup key config ≡ some v
unfolding item_of
item_of-eq-ok config key v h = elim (Option-cases (lookup key config)) [
  | inl e ↦ absurd (cc (rw (e, item_of) at h))
  | inr (w, e) ↦ e ∙ ap some (ok-injective (rw (e, item_of) at h))
]

pub item_of-some :
    (config : Dict Value) (key : String) (v : Value)
    → lookup key config ≡ some v
    → item_of config key ≡ ok v
unfolding item_of
item_of-some config key v h = rw (h, item_of) refl

pub is_one-number : (v : Value) → is_one v ≡ true → v ≡ number 1
is_one-number null h = absurd (cc h)
is_one-number (bool b) h = absurd (cc h)
is_one-number (int (pos n)) h = let e : n ≡ 1 = ground (arith, h) in ap number e
is_one-number (int (negsuc n)) h = absurd (cc h)
is_one-number (float x) h = absurd (cc h)
is_one-number (str s) h = absurd (cc h)
is_one-number (array x) h = absurd (cc h)
is_one-number (object x) h = absurd (cc h)

pub server_id-eq-ok :
    (v : Value) (s : String)
    → server_id v ≡ ok s
    → (v ≡ str s) × ((length (codes s) == 32 && all is_hex (codes s)) ≡ true)
unfolding server_id
server_id-eq-ok (str t) s h =
    let (good, g) = raise_if-then (not (length (codes t) == 32 && all is_hex (codes t))) _ _ h in
    let same : t ≡ s = ok-injective g in
    let fits : (length (codes t) == 32 && all is_hex (codes t)) ≡ true = ground (arith, good) in
    (ap str same, subst (λ t. (length (codes t) == 32 && all is_hex (codes t)) ≡ true) same fits)
server_id-eq-ok null s h = absurd (cc h)
server_id-eq-ok (bool b) s h = absurd (cc h)
server_id-eq-ok (int z) s h = absurd (cc h)
server_id-eq-ok (float x) s h = absurd (cc h)
server_id-eq-ok (array x) s h = absurd (cc h)
server_id-eq-ok (object x) s h = absurd (cc h)

pub server_id-str :
    (s : String)
    → (length (codes s) == 32 && all is_hex (codes s)) ≡ true
    → server_id (str s) ≡ ok s
unfolding server_id
server_id-str s h = rw h refl

pub region_id-eq-ok :
    (v : Value) (n : ℕ) → region_id v ≡ ok n → (v ≡ number n) × (1 ≤ n) × (n ≤ 65535)
region_id-eq-ok (int (pos m)) n h =
    let (good, g) = raise_if-then (not (leb 1 m && leb m 65535)) _ _ h in
    let same : m ≡ n = ok-injective g in
    (ap number same, ground (arith, good, same), ground (arith, good, same))
region_id-eq-ok (int (negsuc m)) n h = absurd (cc h)
region_id-eq-ok null s h = absurd (cc h)
region_id-eq-ok (bool b) s h = absurd (cc h)
region_id-eq-ok (float x) s h = absurd (cc h)
region_id-eq-ok (str x) s h = absurd (cc h)
region_id-eq-ok (array x) s h = absurd (cc h)
region_id-eq-ok (object x) s h = absurd (cc h)

pub region_id-number : (n : ℕ) → 1 ≤ n → n ≤ 65535 → region_id (number n) ≡ ok n
region_id-number n h k =
    let fits : (leb 1 n && leb n 65535) ≡ true = ground (arith, h, k) in rw fits refl

pub check_public-eq-ok : (L : Library) (v : Value) → (check_public L v ≡ ok tt) ↔ IsPublic L v
unfolding check_public
check_public-eq-ok L v = (
  λ h.
      let (a, e, g) = bind-eq-ok (ipv4_address L v) _ h in
      let good = raise_if-ok (not (L.is_global a) || is_multicast a) _ g in
      (a, e, ground (arith, good), ground (arith, good)),
  λ (a, e, g, m). rw (e, g, m) refl,
)

pub check_addresses-eq-ok :
    (L : Library) (derp rendezvous owner : Value) (lan : ℕ)
    → (check_addresses L derp rendezvous owner ≡ ok lan) ↔ AreApart L derp rendezvous owner lan
unfolding check_addresses
check_addresses-eq-ok L derp rendezvous owner lan = (
  λ h.
      let (_, d, h1) = bind-eq-ok (check_public L derp) _ h in
      let (_, r, h2) = bind-eq-ok (check_public L rendezvous) _ h1 in
      let (apart, h3) = raise_if-then (value_eq derp rendezvous) _ _ h2 in
      let (a, parsed, h4) = bind-eq-ok (ipv4_address L owner) _ h3 in
      let (inside, h5) = raise_if-then (not (is_private a)) _ _ h4 in
      let same : a ≡ lan = ok-injective h5 in
      record {
        derp_public = (check_public-eq-ok L derp).0 d;
        rendezvous_public = (check_public-eq-ok L rendezvous).0 r;
        separate = apart;
        parsed = parsed ∙ ap ok same;
        private = subst IsPrivate same ((is_private-IsPrivate a).0 (ground (arith, inside)));
      },
  λ x.
      rw
        (
          (check_public-eq-ok L derp).1 x.derp_public,
          (check_public-eq-ok L rendezvous).1 x.rendezvous_public,
          x.separate,
          x.parsed,
          (is_private-IsPrivate lan).1 x.private,
        )
        refl,
)
