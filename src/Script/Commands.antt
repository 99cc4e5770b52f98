-- ===== src/Script/Commands.antt =====
-- Which commands a script runs: one rule for each way to build a script.
use aura_server.Base.{
  ◌≡◌, refl, sym, ◌∙◌, ap, String, Bool-cases, List, [], ◌∷◌, ◌++◌, length, Error, Result, ok, err,
  inl, inr,
}
use mathlib.Core.List.{append_assoc, append-nil}
use aura_server.Script.{
  World, Machine, Script, pure, throw, lift, gets, continue, ◌>>=◌, recover, try_except, after_all,
  try_finally, for_each, applied, change, command,
}

module _ {S A : Type 0} where
  -- From `before` on, a beginning of `plan` was run, and all of it where there is a result.
  abbrev pub RanTo : List (List String) → List (List String) → Result A × World S → Type 0
  RanTo before plan r =
      (done : List (List String)) × (rest : List (List String)) × (plan ≡ done ++ rest)
      × (r.1.commands ≡ before ++ done)
      × ((a : A) → r.0 ≡ ok a → rest ≡ [])

  pub record Runs (m : Script S A) (plan : List (List String)) : Type 0 where
    pub ran : (w : World S) → RanTo w.commands plan (m w)

  quiet : (r : Result A) (w : World S) → RanTo w.commands [] (r, w)
  quiet r w = ([], [], refl, sym (append-nil w.commands), λ _ _. refl)

  pub Runs-pure : (a : A) → Runs (pure {S = S} a) []
  unfolding pure
  Runs-pure a = record { ran = λ w. quiet (ok a) w }

  pub Runs-throw : (e : Error) → Runs (throw {S = S} {A = A} e) []
  unfolding throw
  Runs-throw e = record { ran = λ w. quiet (err e) w }

  pub Runs-lift : (r : Result A) → Runs (lift {S = S} r) []
  unfolding lift
  Runs-lift r = record { ran = λ w. quiet r w }

  pub Runs-gets : (f : S → A) → Runs (gets f) []
  unfolding gets
  Runs-gets f = record { ran = λ w. quiet (ok (f w.now)) w }

module _ {S : Type 0} (h : Machine) where
  applied-RanTo : (r : Result S) (w : World S) → RanTo w.commands [] (applied r w)
  applied-RanTo (ok s) w = ([], [], refl, sym (append-nil w.commands), λ _ _. refl)
  applied-RanTo (err e) w = quiet (err e) w

  pub Runs-change : (f : S → Result S) → Runs (change h f) []
  unfolding change
  Runs-change f = record {
    ran = λ w. elim (Bool-cases (h.refuses (length w.past))) [
      | inl e ↦ rw e (quiet _ w)
      | inr e ↦ rw e (applied-RanTo (f w.now) w)
    ];
  }

  pub Runs-command : (args : List String) → Runs (command {S = S} h args) (args ∷ [])
  unfolding command
  Runs-command args = record { ran = λ w. (args ∷ [], [], refl, refl, λ _ _. refl) }

module _ {S A B : Type 0} where
  continue-RanTo :
      (before plan more : List (List String)) (f : A → Script S B) (r : Result A) (w : World S)
      → RanTo before plan (r, w)
      → ((a : A) → Runs (f a) more)
      → RanTo before (plan ++ more) (continue f r w)
  continue-RanTo before plan more f (err e) w (done, rest, split, ran, _) k = (
    done,
    rest ++ more,
    ap (λ l. l ++ more) split ∙ append_assoc done rest more,
    ran,
    λ b h. absurd (cc h),
  )
  continue-RanTo before plan more f (ok a) w (done, rest, split, ran, all_done) k =
      let (done', rest', split', ran', all_done') = (k a).ran w in
      let whole : plan ≡ done = split ∙ (ap (λ l. done ++ l) (all_done a refl) ∙ append-nil done) in
      (
        plan ++ done',
        rest',
        ap (λ l. plan ++ l) split' ∙ sym (append_assoc plan done' rest'),
        ran'
            ∙ (ap (λ l. l ++ done') (ran ∙ ap (λ l. before ++ l) (sym whole))
                ∙ append_assoc before plan done'),
        all_done',
      )

  pub Runs-bind :
      (plan more : List (List String)) (m : Script S A) (f : A → Script S B)
      → Runs m plan
      → ((a : A) → Runs (f a) more)
      → Runs (m >>= f) (plan ++ more)
  unfolding ◌>>=◌
  Runs-bind plan more m f k l = record {
    ran = λ w. let (r, w') = m w in continue-RanTo w.commands plan more f r w' (k.ran w) l;
  }

nothing_before : (xs ys : List (List String)) → [] ≡ xs ++ ys → xs ≡ []
nothing_before [] ys h = refl
nothing_before (x ∷ xs) ys h = absurd (cc h)

module _ {S A : Type 0} where
  RanTo-same :
      (before : List (List String)) (r : Result A × World S)
      → RanTo before [] r
      → r.1.commands ≡ before
  RanTo-same before r (done, rest, split, ran, _) =
      ran ∙ (ap (λ l. before ++ l) (nothing_before done rest split) ∙ append-nil before)

  RanTo-of_same :
      (before : List (List String)) (r : Result A × World S)
      → r.1.commands ≡ before
      → RanTo before [] r
  RanTo-of_same before r same = ([], [], refl, same ∙ sym (append-nil before), λ _ _. refl)

module _ {S A : Type 0} where
  recover-same :
      (f : Error → Script S A) (r : Result A) (w : World S)
      → ((e : Error) → Runs (f e) [])
      → (recover f r w).1.commands ≡ w.commands
  recover-same f (ok a) w k = refl
  recover-same f (err e) w k = RanTo-same w.commands (f e w) ((k e).ran w)

  pub Runs-try_except :
      (m : Script S A) (f : Error → Script S A)
      → Runs m []
      → ((e : Error) → Runs (f e) [])
      → Runs (try_except m f) []
  unfolding try_except
  Runs-try_except m f k l = record {
    ran = λ w.
        let (r, w') = m w in
        RanTo-of_same w.commands (recover f r w')
          (recover-same f r w' l ∙ RanTo-same w.commands (m w) (k.ran w));
  }

  after_all-same :
      (r : Result A) (q : Result (Unit {0}) × World S) → (after_all r q).1.commands ≡ q.1.commands
  after_all-same r (ok u, w) = refl
  after_all-same r (err e, w) = refl

  pub Runs-try_finally :
      (m : Script S A) (f : Script S (Unit {0})) → Runs m [] → Runs f [] → Runs (try_finally m f) []
  unfolding try_finally
  Runs-try_finally m f k l = record {
    ran = λ w.
        let (r, w') = m w in
        RanTo-of_same w.commands (after_all r (f w')) (
          after_all-same r (f w')
          ∙ (RanTo-same w'.commands (f w') (l.ran w') ∙ RanTo-same w.commands (m w) (k.ran w)));
  }

  pub Runs-for_each :
      (body : A → Script S (Unit {0})) (xs : List A)
      → ((x : A) → Runs (body x) [])
      → Runs (for_each body xs) []
  unfolding for_each
  Runs-for_each body [] k = Runs-pure tt
  Runs-for_each body (x ∷ xs) k = Runs-bind [] [] _ _ (k x) (λ _. Runs-for_each body xs k)
