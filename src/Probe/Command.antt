-- ===== src/Probe/Command.antt =====
-- The command of the probe, on a nonce file with white space about the nonce.
use aura_server.Base.{
  ℕ, ◌≤◌, ◌<◌, ◌≡◌, refl, ap, ◌∙◌, true, false, List, [], ◌∷◌, ◌++◌, length, all, nat_eq, is_hex,
  All, All-map, all_iff, ok, arith,
}
use aura_server.Json.{ℤ}
use aura_server.Address.{Parser}
use aura_server.Probe.{is_blank, lstrip, rstrip, keep_unless_last, is_nonce, Network, probe, main}
use aura_server.Probe.Receive.{take-eq_self}

abbrev IsBlank : ℕ → Type 0
IsBlank c = is_blank c ≡ true

lstrip-append :
    (b : List ℕ) (x : ℕ) (xs : List ℕ)
    → All IsBlank b
    → is_blank x ≡ false
    → lstrip (b ++ (x ∷ xs)) ≡ x ∷ xs
unfolding lstrip
lstrip-append [] x xs h k = rw k
lstrip-append (c ∷ b) x xs (h, hs) k = rw h (lstrip-append b x xs hs k)

rstrip_blank : (b : List ℕ) → All IsBlank b → rstrip b ≡ []
unfolding rstrip
rstrip_blank [] h = refl
rstrip_blank (c ∷ b) (h, hs) = rw (rstrip_blank b hs, h)

keep_unless_last-eq_cons :
    (x : ℕ) (xs : List ℕ) → is_blank x ≡ false → keep_unless_last x xs ≡ x ∷ xs
keep_unless_last-eq_cons x [] h = rw h
keep_unless_last-eq_cons x (y ∷ ys) h = refl

rstrip-append :
    (n b : List ℕ) → All (λ c. is_blank c ≡ false) n → All IsBlank b → rstrip (n ++ b) ≡ n
unfolding rstrip
rstrip-append [] b h k = rstrip_blank b k
rstrip-append (x ∷ xs) b (h, hs) k = rw (rstrip-append xs b hs k) (keep_unless_last-eq_cons x xs h)

hex_not_blank : (c : ℕ) → is_hex c ≡ true → is_blank c ≡ false
hex_not_blank c h = ground (arith, h)

strip_nonce :
    (b n c : List ℕ)
    → All IsBlank b
    → All (λ c. is_blank c ≡ false) n
    → 0 < length n
    → All IsBlank c
    → rstrip (lstrip (b ++ (n ++ c))) ≡ n
strip_nonce b [] c h k l m = absurd (omega (arith, l))
strip_nonce b (x ∷ xs) c h k l m =
    ap rstrip (lstrip-append b x (xs ++ c) h k.0) ∙ rstrip-append (x ∷ xs) c k m

-- On a file of at most 66 bytes that holds a nonce with nothing but white space about it, the command does
-- what the probe does with that nonce.
main_nonce :
    (parse : Parser) (address before nonce after : List ℕ) (port seconds : ℤ) (net : Network)
    → is_nonce nonce ≡ true
    → All IsBlank before
    → All IsBlank after
    → length (before ++ (nonce ++ after)) ≤ 66
    → main parse address port seconds (ok (before ++ (nonce ++ after))) net
      ≡ probe parse address port nonce seconds net
unfolding main
main_nonce parse address before nonce after port seconds net h b a fits =
    let hex : all is_hex nonce ≡ true = ground (arith, h) in
    let size : length nonce ≡ 32 = ground (arith, h) in
    let plain =
      All-map (λ c. is_hex c ≡ true) (λ c. is_blank c ≡ false) hex_not_blank nonce
        ((all_iff is_hex nonce).0 hex) in
    rw (
      take-eq_self 66 (before ++ (nonce ++ after)) fits,
      strip_nonce before nonce after b plain (omega (arith, size)) a,
    )
