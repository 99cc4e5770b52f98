-- ===== src/Prepare/Exits.antt =====
-- The command of prepare.py ends without a traceback.
use aura_server.Base.{
  ℕ, ◌^◌, ◌≡◌, refl, inl, inr, String, ◌<>◌, Bool, Bool-cases, true, false, not, ◌&&◌, ◌||◌, Option,
  Option-cases, none, some, List, [], ◌∷◌, length, all, ltb, leb, contains, ◌==◌, string_eq, nat_eq,
  list_eq, any, split, codes, is_upper, is_hex, Error, Result, ok, err, ◌>>=◌, ◌>>◌, raise_if,
  arith,
}
use text.Mathlib.TextEquality.{eq_iff}
use aura_server.Base.Dict.{Dict, keys, contains-keys, same_set}
use aura_server.Json.{Value, null, bool, int, pos, negsuc, float, str, array, object, value_eq}
use aura_server.Address.{Parser, is_private}
use aura_server.Prepare.{
  is_label, last_label, is_reserved, ends_with, refuse_address, check_hostname, hostname,
}
use aura_server.Prepare.Render.{
  Library, item_of, ipv4_address, is_multicast, check_public, is_one, server_id, region_id,
  required, Checked, check_addresses, check_config, name_hosts, render,
}
use aura_server.Prepare.Fields.{of_not}
use aura_server.Prepare.Write.{is_caught}

-- An error that the command turns into a line.
abbrev pub Caught : {A : Type 0} → Result A → Type 0
Caught (err e) = is_caught e ≡ true
Caught (ok a) = Unit

module _ {A B : Type 0} where
  Caught-bind :
      (r : Result A) (f : A → Result B)
      → Caught r
      → ((a : A) → r ≡ ok a → Caught (f a))
      → Caught (r >>= f)
  Caught-bind (err e) f h k = h
  Caught-bind (ok a) f h k = k a refl

module _ {B : Type 0} where
  Caught-raise_if :
      (b : Bool) (e : Error) (rest : Result B)
      → is_caught e ≡ true
      → (b ≡ false → Caught rest)
      → Caught (raise_if b e >> rest)
  Caught-raise_if true e rest h k = h
  Caught-raise_if false e rest h k = k refl

pub guard-Caught : (b : Bool) (e : Error) → is_caught e ≡ true → Caught (raise_if b e)
guard-Caught true e h = h
guard-Caught false e h = tt

all_contained :
    (xs ys : List String) (key : String)
    → all (contains ys) xs ≡ true
    → contains xs key ≡ true
    → contains ys key ≡ true
all_contained [] ys key h c = absurd (cc c)
all_contained (x ∷ xs) ys key h c = elim (Bool-cases (x == key)) [
  | inl e ↦ let same = (eq_iff x key).0 e in ground (arith, h, same)
  | inr e ↦ all_contained xs ys key (ground (arith, h)) (rw e at c)
]

refuse_address-Caught : (o : Option _) → Caught (refuse_address o)
refuse_address-Caught none = tt
refuse_address-Caught (some a) = refl

check_hostname-Caught : (parse : Parser) (v : List ℕ) → Caught (check_hostname parse v)
unfolding check_hostname
check_hostname-Caught parse v =
    Caught-raise_if (ltb 253 (length v) || any is_upper v) _ _ refl (λ _.
      Caught-raise_if (ltb (length (split b'.' v)) 2 || any (λ l. not (is_label l)) (split b'.' v))
        _ _ refl
        (λ _.
          Caught-raise_if (is_reserved (last_label (split b'.' v)) || ends_with (codes ".ts.net") v)
            _ _ refl (λ _. refuse_address-Caught (parse v))))

hostname-Caught : (parse : Parser) (v : Value) → Caught (hostname parse v)
unfolding hostname
hostname-Caught parse (str s) =
    Caught-bind (check_hostname parse (codes s)) _ (check_hostname-Caught parse (codes s))
      (λ _ _. tt)
hostname-Caught parse null = refl
hostname-Caught parse (bool b) = refl
hostname-Caught parse (int z) = refl
hostname-Caught parse (float x) = refl
hostname-Caught parse (array x) = refl
hostname-Caught parse (object x) = refl

ipv4_address-Caught : (L : Library) (v : Value) → Caught (ipv4_address L v)
unfolding ipv4_address
ipv4_address-Caught L (str s) = elim (Option-cases (L.ipv4 s)) [
  | inl e ↦ rw (e, ipv4_address) refl
  | inr (a, e) ↦ rw (e, ipv4_address) tt
]
ipv4_address-Caught L (int (pos n)) = elim (Bool-cases (ltb n (2 ^ 32))) [
  | inl e ↦ rw e tt
  | inr e ↦ rw e refl
]
ipv4_address-Caught L (int (negsuc n)) = refl
ipv4_address-Caught L null = refl
ipv4_address-Caught L (bool b) = tt
ipv4_address-Caught L (float x) = refl
ipv4_address-Caught L (array x) = refl
ipv4_address-Caught L (object x) = refl

check_public-Caught : (L : Library) (v : Value) → Caught (check_public L v)
unfolding check_public
check_public-Caught L v =
    Caught-bind (ipv4_address L v) _ (ipv4_address-Caught L v)
      (λ a _. guard-Caught (not (L.is_global a) || is_multicast a) _ refl)

server_id-Caught : (v : Value) → Caught (server_id v)
unfolding server_id
server_id-Caught (str s) =
    Caught-raise_if (not (length (codes s) == 32 && all is_hex (codes s))) _ _ refl (λ _. tt)
server_id-Caught null = refl
server_id-Caught (bool b) = refl
server_id-Caught (int z) = refl
server_id-Caught (float x) = refl
server_id-Caught (array x) = refl
server_id-Caught (object x) = refl

region_id-Caught : (v : Value) → Caught (region_id v)
region_id-Caught (int (pos n)) = Caught-raise_if (not (leb 1 n && leb n 65535)) _ _ refl (λ _. tt)
region_id-Caught (int (negsuc n)) = refl
region_id-Caught null = refl
region_id-Caught (bool b) = refl
region_id-Caught (str s) = refl
region_id-Caught (float x) = refl
region_id-Caught (array x) = refl
region_id-Caught (object x) = refl

check_addresses-Caught : (L : Library) (a b c : Value) → Caught (check_addresses L a b c)
unfolding check_addresses
check_addresses-Caught L a b c = Caught-bind (check_public L a) _ (check_public-Caught L a) (λ _ _.
    Caught-bind (check_public L b) _ (check_public-Caught L b) (λ _ _.
      Caught-raise_if (value_eq a b) _ _ refl (λ _.
        Caught-bind (ipv4_address L c) _ (ipv4_address-Caught L c)
          (λ lan _. Caught-raise_if (not (is_private lan)) _ _ refl (λ _. tt)))))

-- A required field is there once the fields are as they should be.
item_of-Caught :
    (config : Dict Value) (key : String)
    → same_set (keys config) required ≡ true
    → contains required key ≡ true
    → Caught (item_of config key)
unfolding item_of
item_of-Caught config key same known =
    let (v, e) =
      contains-keys key config
        (all_contained required (keys config) key (ground (arith, same)) known) in
    rw (e, item_of) tt

check_config-Caught : (L : Library) (config : Dict Value) → Caught (check_config L config)
unfolding check_config
check_config-Caught L config =
    Caught-raise_if (not (same_set (keys config) required)) _ _ refl (λ g.
      let same = of_not (same_set (keys config) required) g in
      Caught-bind (item_of config "version") _ (item_of-Caught config _ same refl) (λ v _.
        Caught-raise_if (not (is_one v)) _ _ refl (λ _.
          Caught-bind (item_of config "domain") _ (item_of-Caught config _ same refl) (λ d _.
            Caught-bind (hostname L.parse d) _ (hostname-Caught L.parse d) (λ domain _.
              Caught-bind (item_of config "serverId") _ (item_of-Caught config _ same refl) (λ i _.
                Caught-bind (server_id i) _ (server_id-Caught i) (λ id _.
                  Caught-bind (item_of config "derpIPv4") _ (item_of-Caught config _ same refl)
                    (λ a _.
                      Caught-bind (item_of config "rendezvousIPv4") _
                        (item_of-Caught config _ same refl)
                        (λ b _.
                          Caught-bind (item_of config "ownerLANIPv4") _
                            (item_of-Caught config _ same refl)
                            (λ c _.
                              Caught-bind (check_addresses L a b c) _
                                (check_addresses-Caught L a b c)
                                (λ lan _.
                                  Caught-bind (item_of config "regionId") _
                                    (item_of-Caught config _ same refl)
                                    (λ r _.
                                      Caught-bind (region_id r) _ (region_id-Caught r)
                                        (λ _ _. tt)))))))))))))

name_hosts-Caught : (L : Library) (c : Checked) → Caught (name_hosts L c)
unfolding name_hosts
name_hosts-Caught L c =
    Caught-bind (hostname L.parse (str ("relay." <> c.domain))) _ (hostname-Caught L.parse _)
      (λ _ _.
        Caught-bind (hostname L.parse (str ("pairing." <> c.domain))) _ (hostname-Caught L.parse _)
          (λ _ _.
            Caught-bind (hostname L.parse (str (c.id <> (".server." <> c.domain)))) _
              (hostname-Caught L.parse _) (λ _ _. tt)))

pub render-Caught : (L : Library) (config : Dict Value) → Caught (render L config)
unfolding render
render-Caught L config =
    Caught-bind (check_config L config) _ (check_config-Caught L config)
      (λ c _. Caught-bind (name_hosts L c) _ (name_hosts-Caught L c) (λ _ _. tt))
