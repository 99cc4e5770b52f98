-- ===== src/Prepare/Hostname.antt =====
-- The hostnames that `hostname` of prepare.py accepts.
use aura_server.Base.{
  ℕ, ◌≤◌, ◌≡◌, ◌↔◌, refl, ap, sym, ◌∙◌, String, true, false, not, ◌||◌, Option, none, some, List,
  [], ◌∷◌, ◌++◌, length, any, ltb, nat_eq, list_eq, All, All-append, All-map, any_iff, codes,
  is_upper, split, join, ok, raise_if-then, bind-eq-ok, ok-injective, arith,
}
use mathlib.Core.Path.{subst}
use aura_server.Base.Text.Split.{NoSep, join-split, split-join, join-All}
use aura_server.Json.{Value, null, bool, int, float, str, array, object}
use aura_server.Address.{Address, Parser}
use aura_server.Prepare.{
  is_label_end, is_label_char, ends_well, is_label, last_label, is_reserved, ends_with,
  refuse_address, check_hostname, hostname,
}

-- At most 63 small letters, digits and hyphens, the first and the last no hyphen.
pub record IsLabel (l : List ℕ) : Type 0 where
  pub short : length l ≤ 63
  pub plain : All (λ c. is_label_char c ≡ true) l
  pub first : (c : ℕ) × (cs : List ℕ) × (l ≡ c ∷ cs) × (is_label_end c ≡ true)
  pub last : (c : ℕ) × (cs : List ℕ) × (l ≡ cs ++ (c ∷ [])) × (is_label_end c ≡ true)

-- A permanent name outside Tailscale, of two labels at least.
pub record IsHostname (parse : Parser) (name : List ℕ) : Type 0 where
  pub short : length name ≤ 253
  pub first : List ℕ
  pub second : List ℕ
  pub more : List (List ℕ)
  pub joined : join b'.' (first ∷ second ∷ more) ≡ name
  pub labels : All IsLabel (first ∷ second ∷ more)
  pub permanent : is_reserved (last_label (first ∷ second ∷ more)) ≡ false
  pub outside : ends_with (codes ".ts.net") name ≡ false
  pub named : parse name ≡ none

ends_well-append :
    (xs : List ℕ) (c : ℕ)
    → All (λ c. is_label_char c ≡ true) xs
    → is_label_end c ≡ true
    → ends_well (xs ++ (c ∷ [])) ≡ true
ends_well-append [] c h k = k
ends_well-append (x ∷ []) c (h, _) k = rw (h, k)
ends_well-append (x ∷ y ∷ ys) c (h, hs) k = rw h (ends_well-append (y ∷ ys) c hs k)

ends_well_split :
    (l : List ℕ)
    → ends_well l ≡ true
    → (c : ℕ) × (cs : List ℕ) × (l ≡ cs ++ (c ∷ []))
      × (is_label_end c ≡ true)
      × All (λ c. is_label_char c ≡ true) l
ends_well_split [] h = absurd (cc h)
ends_well_split (c ∷ []) h = (c, [], refl, h, (ground (arith, h), tt))
ends_well_split (c ∷ d ∷ cs) h =
    let (e, es, same, good, all_good) = ends_well_split (d ∷ cs) (ground (arith, h)) in
    (e, c ∷ es, ap (λ l. c ∷ l) same, good, (ground (arith, h), all_good))

is_label-IsLabel : (l : List ℕ) → is_label l ≡ true → IsLabel l
unfolding is_label
is_label-IsLabel [] h = absurd (cc h)
is_label-IsLabel (c ∷ []) h = record {
  short = omega arith;
  plain = (ground (arith, h), tt);
  first = (c, [], refl, h);
  last = (c, [], refl, h);
}
is_label-IsLabel (c ∷ d ∷ cs) h =
    let begins : is_label_end c ≡ true = ground (arith, h) in
    let ends : ends_well (d ∷ cs) ≡ true = ground (arith, h) in
    let (e, es, same, good, all_good) = ends_well_split (d ∷ cs) ends in
    record {
      short = ground (arith, h);
      plain = (ground (arith, begins), all_good);
      first = (c, d ∷ cs, refl, begins);
      last = (e, c ∷ es, ap (λ l. c ∷ l) same, good);
    }

-- The last of two characters or more comes after the first.
last_tail :
    (c d e : ℕ) (cs es : List ℕ)
    → c ∷ d ∷ cs ≡ es ++ (e ∷ [])
    → (rest : List ℕ) × (d ∷ cs ≡ rest ++ (e ∷ []))
last_tail c d e cs [] h = absurd (cc h)
last_tail c d e cs (x ∷ rest) h = (rest, cc h)

is_label-of_IsLabel : (l : List ℕ) → IsLabel l → is_label l ≡ true
unfolding is_label
is_label-of_IsLabel [] h = let (c, cs, same, _) = h.first in absurd (cc same)
is_label-of_IsLabel (c ∷ []) h =
    let (d, ds, same, good) = h.first in let e : c ≡ d = cc same in rw e good
is_label-of_IsLabel (c ∷ d ∷ cs) h =
    let (b, bs, same, begins) = h.first in
    let e : c ≡ b = cc same in
    let start : is_label_end c ≡ true = rw e begins in
    let (z, zs, tail, ends) = h.last in
    let (rest, parts) = last_tail c d z cs zs tail in
    let inner =
      ((All-append (λ c. is_label_char c ≡ true) rest (z ∷ [])).0
        (subst (All (λ c. is_label_char c ≡ true)) parts h.plain.1)).0 in
    let well : ends_well (d ∷ cs) ≡ true =
      ap ends_well parts ∙ ends_well-append rest z inner ends in
    ground (arith, start, well, h.short)

two_of :
    {A : Type 0} (l : List A)
    → ltb (length l) 2 ≡ false
    → (a : A) × (b : A) × (more : List A) × (l ≡ a ∷ b ∷ more)
two_of [] h = absurd (cc h)
two_of (a ∷ []) h = absurd (cc h)
two_of (a ∷ b ∷ more) h = (a, b, more, refl)

are_labels : (ls : List (List ℕ)) → any (λ l. not (is_label l)) ls ≡ false → All IsLabel ls
are_labels [] h = tt
are_labels (l ∷ ls) h = (is_label-IsLabel l (ground (arith, h)), are_labels ls (ground (arith, h)))

no_bad_label : (ls : List (List ℕ)) → All IsLabel ls → any (λ l. not (is_label l)) ls ≡ false
no_bad_label [] h = refl
no_bad_label (l ∷ ls) (h, hs) = rw (is_label-of_IsLabel l h) (no_bad_label ls hs)

unparsed : (o : Option Address) → refuse_address o ≡ ok tt → o ≡ none
unparsed none h = refl
unparsed (some a) h = absurd (cc h)

check_hostname-IsHostname :
    (parse : Parser) (v : List ℕ) → check_hostname parse v ≡ ok tt → IsHostname parse v
unfolding check_hostname
check_hostname-IsHostname parse v h =
    let (g1, h1) = raise_if-then (ltb 253 (length v) || any is_upper v) _ _ h in
    let (g2, h2) =
      raise_if-then (ltb (length (split b'.' v)) 2 || any (λ l. not (is_label l)) (split b'.' v)) _
        _ h1 in
    let (g3, h3) =
      raise_if-then (is_reserved (last_label (split b'.' v)) || ends_with (codes ".ts.net") v) _ _
        h2 in
    let (a, b, more, parts) = two_of (split b'.' v) (ground (arith, g2)) in
    let labels = are_labels (split b'.' v) (ground (arith, g2)) in
    record {
      short = ground (arith, g1);
      first = a;
      second = b;
      more = more;
      joined = ap (join b'.') (sym parts) ∙ join-split b'.' v;
      labels = subst (All IsLabel) parts labels;
      permanent = rw (← parts) (ground (arith, g3));
      outside = ground (arith, g3);
      named = unparsed (parse v) h3;
    }

label_NoSep : (l : List ℕ) → IsLabel l → NoSep b'.' l
label_NoSep l h = All-map (λ c. is_label_char c ≡ true) _ (λ c e. ground (arith, e)) l h.plain

label_lower : (l : List ℕ) → IsLabel l → All (λ c. is_upper c ≡ false) l
label_lower l h = All-map (λ c. is_label_char c ≡ true) _ (λ c e. ground (arith, e)) l h.plain

check_hostname_total :
    (parse : Parser) (v : List ℕ) → IsHostname parse v → check_hostname parse v ≡ ok tt
unfolding check_hostname
check_hostname_total parse v h =
    let labels = h.first ∷ h.second ∷ h.more in
    let parts : split b'.' v ≡ labels =
      ap (split b'.') (sym h.joined)
      ∙ split-join b'.' h.first (h.second ∷ h.more)
          (All-map IsLabel (NoSep b'.') label_NoSep labels h.labels) in
    let lower : any is_upper v ≡ false = (any_iff is_upper v).1 (
      subst (All (λ c. is_upper c ≡ false)) h.joined (
        join-All b'.' (λ c. is_upper c ≡ false) labels refl
          (All-map IsLabel (All (λ c. is_upper c ≡ false)) label_lower labels h.labels))) in
    let small : ltb 253 (length v) ≡ false = ground (arith, h.short) in
    let two : ltb (length labels) 2 ≡ false = ground arith in
    rw (small, lower, parts, two, no_bad_label labels h.labels, h.permanent, h.outside, h.named)
      refl

-- `hostname` returns exactly the text that it was given, and does so exactly if the value is a text of at
-- most 253 characters that is two labels or more joined by dots, each label of at most 63 small letters,
-- digits and hyphens with no hyphen at its ends, the last label is not reserved, the text does not end in
-- `.ts.net`, and it is no IP address.
pub hostname-eq-ok :
    (parse : Parser) (v : Value) (r : String)
    → (hostname parse v ≡ ok r) ↔ ((v ≡ str r) × IsHostname parse (codes r))
unfolding hostname
hostname-eq-ok parse (str s) r = (
  λ h.
      let (u, e, g) = bind-eq-ok (check_hostname parse (codes s)) _ h in
      let same : s ≡ r = ok-injective g in
      (
        ap str same,
        subst (λ s. IsHostname parse (codes s)) same (check_hostname-IsHostname parse (codes s) e),
      ),
  λ (same, h). let e : s ≡ r = cc same in rw e (rw (check_hostname_total parse (codes r) h)),
)
hostname-eq-ok parse null r = (λ h. absurd (cc h), λ h. absurd (cc h.0))
hostname-eq-ok parse (bool b) r = (λ h. absurd (cc h), λ h. absurd (cc h.0))
hostname-eq-ok parse (int z) r = (λ h. absurd (cc h), λ h. absurd (cc h.0))
hostname-eq-ok parse (float x) r = (λ h. absurd (cc h), λ h. absurd (cc h.0))
hostname-eq-ok parse (array x) r = (λ h. absurd (cc h), λ h. absurd (cc h.0))
hostname-eq-ok parse (object x) r = (λ h. absurd (cc h), λ h. absurd (cc h.0))
