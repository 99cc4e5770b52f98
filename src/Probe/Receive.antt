-- ===== src/Probe/Receive.antt =====
-- The inner loop of the probe: it ends, and the pieces in which a nonce comes do not matter.
use mathlib.Core.List.{append_assoc, append-nil}
use aura_server.Base.{
  ℕ, suc, zero, ◌+◌, ◌-◌, ◌≤◌, ◌<◌, ◌≡◌, inl, inr, refl, ap, ◌∙◌, if◌then◌else◌, true, false, ◌&&◌,
  List, [], ◌∷◌, ◌++◌, length, take, length-append, ltb, ◌==◌, nat_eq, list_eq, Result-cases,
  Bool-cases, Result, ok, arith,
}
use aura_server.Probe.{
  State, Connection, on_tcp, act, sent, tcp, count, reject, go_on, receive, handle,
}

take-length_le : (n : ℕ) (xs : List ℕ) → length (take n xs) ≤ n
take-length_le zero xs = omega arith
take-length_le (suc n) [] = omega arith
take-length_le (suc n) (x ∷ xs) = omega (arith, take-length_le n xs)

pub take-eq_self : (n : ℕ) (xs : List ℕ) → length xs ≤ n → take n xs ≡ xs
take-eq_self zero [] h = refl
take-eq_self zero (x ∷ xs) h = absurd (omega (arith, h))
take-eq_self (suc n) [] h = refl
take-eq_self (suc n) (x ∷ xs) h = cc (take-eq_self n xs (omega (arith, h)))

go_on_same :
    (got chunk : List ℕ) {a b : Result (List ℕ)}
    → (0 < length chunk → a ≡ b)
    → go_on got chunk a ≡ go_on got chunk b
go_on_same got [] h = refl
go_on_same got (x ∷ xs) h = h (omega arith)

abbrev pub joined : List (List ℕ) → List ℕ
joined [] = []
joined (p ∷ ps) = p ++ joined ps

module _ (c : Connection) where
  -- From the same bytes, two amounts of fuel that suffice give the same.
  pub receive_fuel :
      (m n i : ℕ) (got : List ℕ)
      → 33 ≤ m + length got
      → 33 ≤ n + length got
      → receive m c i got ≡ receive n c i got
  unfolding receive
  receive_fuel zero zero i got h k = refl
  receive_fuel zero (suc n) i got h k =
      let full : ltb (length got) 32 ≡ false = ground (arith, h) in rw full
  receive_fuel (suc m) zero i got h k =
      let full : ltb (length got) 32 ≡ false = ground (arith, k) in rw full
  receive_fuel (suc m) (suc n) i got h k =
      elim (Bool-cases (ltb (length got) 32 && ltb (c.reads i).now (c.start + 200))) [
        | inr e ↦ rw e
        | inl e ↦ elim (Result-cases (c.reads i).answer) [
          | inr (x, f) ↦ rw (e, f)
          | inl (answer, f) ↦
              rw (e, f)
                (go_on_same got (take (33 - length got) answer) (λ more.
                  let size = length-append got (take (33 - length got) answer) in
                  receive_fuel m n (suc i) (got ++ take (33 - length got) answer)
                    (omega (arith, h, size, more)) (omega (arith, k, size, more))))
        ]
      ]

  -- The pieces that are read from the i-th call on, each before the deadline.
  abbrev pub Gives : ℕ → List (List ℕ) → Type 0
  Gives i [] = Unit
  Gives i (p ∷ ps) =
      ((c.reads i).now < c.start + 200)
      × ((c.reads i).answer ≡ ok p)
      × (0 < length p)
      × Gives (suc i) ps

  receive_joined :
      (n i : ℕ) (got : List ℕ) (ps : List (List ℕ))
      → Gives i ps
      → length got + length (joined ps) ≡ 32
      → 33 ≤ n + length got
      → receive n c i got ≡ ok (got ++ joined ps)
  unfolding receive
  receive_joined zero i got ps g size h = absurd (omega (arith, size, h))
  receive_joined (suc n) i got [] g size h =
      let full : ltb (length got) 32 ≡ false = ground (arith, size) in rw (full, append-nil got)
  receive_joined (suc n) i got ([] ∷ ps) (_, _, more, _) size h = absurd (omega (arith, more))
  receive_joined (suc n) i got ((x ∷ xs) ∷ ps) (early, given, _, g) size h =
      let p = x ∷ xs in
      let parts = length-append p (joined ps) in
      let longer = length-append got p in
      let room : ltb (length got) 32 ≡ true = ground (arith, size, parts) in
      let soon : ltb (c.reads i).now (c.start + 200) ≡ true = ground (arith, early) in
      let whole = take-eq_self (33 - length got) p (omega (arith, size, parts)) in
      rw (room, soon, given, whole)
        (receive_joined n (suc i) (got ++ p) ps g (omega (arith, size, parts, longer))
            (omega (arith, h, longer))
          ∙ ap ok (append_assoc got p (joined ps)))

-- A message of 32 bytes, in whatever pieces its connection gives it before the deadline: it is answered
-- with the nonce and counted exactly if it is the nonce, otherwise it is counted as rejected; nothing is
-- raised. The answer is sent without an error.
pub handle-joined :
    (nonce : List ℕ) (c : Connection) (pieces : List (List ℕ)) (s : State)
    → Gives c 0 pieces
    → length (joined pieces) ≡ 32
    → c.sendall ≡ ok tt
    → handle nonce (on_tcp (ok c)) s
      ≡ (ok tt, if joined pieces == nonce then count tcp (act (sent tcp nonce) s) else reject s)
unfolding handle
handle-joined nonce c pieces s g size sends =
    let whole = receive_joined c 33 0 [] pieces g (omega (arith, size)) (omega arith) in
    rw (whole, sends)
