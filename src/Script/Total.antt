-- ===== src/Script/Total.antt =====
-- What a script does where the machine refuses nothing and each command succeeds.
use aura_server.Base.{
  ◌≡◌, refl, ap, String, Bool, true, false, List, [], ◌∷◌, length, All, Error, ok-injective, Result,
  ok, err,
}
use mathlib.Core.Path.{subst}
use aura_server.Script.Rules.{Ends}
use aura_server.Script.{
  World, Machine, Script, pure, lift, gets, ◌>>=◌, try_except, try_finally, for_each, when, change,
  command,
}

pub record IsWilling (h : Machine) : Type 0 where
  pub allows : (n : _) → h.refuses n ≡ false
  pub works : (before : List (List String)) (args : List String) → h.succeeds before args ≡ true

module _ {S A : Type 0} where
  -- From a state with `pre` the script gives a result, and then `post` holds.
  pub record Works (pre : S → Type 0) (m : Script S A) (post : A → S → Type 0) : Type 0 where
    pub at :
        (w : World S) → pre w.now → (a : A) × (w' : World S) × (m w ≡ (ok a, w')) × post a w'.now

module _ {S A B : Type 0} {pre : S → Type 0} {post : B → S → Type 0} where
  pub Works-bind :
      (mid : A → S → Type 0) (m : Script S A) (f : A → Script S B)
      → Works pre m mid
      → ((a : A) → Works (mid a) (f a) post)
      → Works pre (m >>= f) post
  unfolding ◌>>=◌
  Works-bind mid m f k l = record {
    at = λ w p.
        let (a, w', e, q) = k.at w p in
        let (b, w'', e', q') = (l a).at w' q in (b, w'', rw (e, e') refl, q');
  }

module _ {S A B : Type 0} {pre : S → Type 0} {post : B → S → Type 0} where
  -- A look at the state that is lifted at once.
  pub Works-read :
      (mid : A → S → Type 0) (f : S → Result A) (rest : A → Script S B)
      → ((s : S) → pre s → (a : A) × (f s ≡ ok a) × mid a s)
      → ((a : A) → Works (mid a) (rest a) post)
      → Works pre (gets f >>= λ r. lift r >>= rest) post
  unfolding gets lift ◌>>=◌
  Works-read mid f rest k l = record {
    at = λ w p.
        let (a, e, q) = k w.now p in
        let (b, w', e', q') = (l a).at w q in (b, w', rw (e, e') refl, q');
  }

module _ {S A : Type 0} {pre : S → Type 0} {post : A → S → Type 0} where
  pub Works-pure : (a : A) → ((s : S) → pre s → post a s) → Works pre (pure a) post
  unfolding pure
  Works-pure a k = record { at = λ w p. (a, w, refl, k w.now p) }

  pub Works-gets : (f : S → A) → ((s : S) → pre s → post (f s) s) → Works pre (gets f) post
  unfolding gets
  Works-gets f k = record { at = λ w p. (f w.now, w, refl, k w.now p) }

  pub Works-lift :
      (r : Result A) (a : A) → r ≡ ok a → ((s : S) → pre s → post a s) → Works pre (lift r) post
  unfolding lift
  Works-lift r a e k = record { at = λ w p. (a, w, rw e refl, k w.now p) }

  -- What is looked up in the state before it is lifted.
  pub Works-found :
      (f : S → Result A)
      → ((s : S) → pre s → (a : A) × (f s ≡ ok a) × post a s)
      → Works pre (gets f >>= lift) post
  unfolding gets lift ◌>>=◌
  Works-found f k = record {
    at = λ w p. let (a, e, q) = k w.now p in (a, w, ap (λ r. (r, w)) e, q);
  }

  pub Works-weaken :
      (pre' : S → Type 0) (post' : A → S → Type 0) (m : Script S A)
      → ((s : S) → pre' s → pre s)
      → ((a : A) (s : S) → post a s → post' a s)
      → Works pre m post
      → Works pre' m post'
  Works-weaken pre' post' m f g k = record {
    at = λ w p. let (a, w', e, q) = k.at w (f w.now p) in (a, w', e, g a w'.now q);
  }

  -- The state a script starts from, under a name.
  pub Works-from :
      (m : Script S A) → ((s0 : S) → pre s0 → Works (λ s. s ≡ s0) m post) → Works pre m post
  Works-from m k = record { at = λ w p. (k w.now p).at w refl }

  pub Works-assume :
      (m : Script S A) (fact : Type 0)
      → (fact → Works pre m post)
      → Works (λ s. fact × pre s) m post
  Works-assume m fact k = record { at = λ w (f, p). (k f).at w p }

  pub Works-try_except :
      (m : Script S A) (f : Error → Script S A) → Works pre m post → Works pre (try_except m f) post
  unfolding try_except
  Works-try_except m f k = record {
    at = λ w p. let (a, w', e, q) = k.at w p in (a, w', rw e refl, q);
  }

  pub Works-try_finally :
      (mid : A → S → Type 0) (m : Script S A) (f : Script S (Unit {0}))
      → Works pre m mid
      → ((a : A) → Works (mid a) f (λ _. post a))
      → Works pre (try_finally m f) post
  unfolding try_finally
  Works-try_finally mid m f k l = record {
    at = λ w p.
        let (a, w', e, q) = k.at w p in
        let (_, w'', e', q') = (l a).at w' q in (a, w'', rw (e, e') refl, q');
  }

module _ {S : Type 0} {pre : S → Type 0} (h : Machine) (willing : IsWilling h)
    (post : S → Type 0) where
  pub Works-change :
      (f : S → Result S)
      → ((s : S) → pre s → (s' : S) × (f s ≡ ok s') × post s')
      → Works pre (change h f) (λ _. post)
  unfolding change
  Works-change f k = record {
    at = λ w p.
        let (s', e, q) = k w.now p in
        (
          tt,
          record w { now = s'; past = w.now ∷ w.past },
          rw (willing.allows (length w.past), e) refl,
          q,
        );
  }

  pub Works-command :
      (args : List String) → ((s : S) → pre s → post s) → Works pre (command h args) (λ _. post)
  unfolding command
  Works-command args k = record {
    at = λ w p. (tt, (command h args w).1, rw (willing.works w.commands args) refl, k w.now p);
  }

module _ {S A : Type 0} {inv : S → Type 0} where
  pub Works-for_each :
      (body : A → Script S (Unit {0})) (xs : List A)
      → All (λ x. Works inv (body x) (λ _. inv)) xs
      → Works inv (for_each body xs) (λ _. inv)
  unfolding for_each
  Works-for_each body [] steps = Works-pure tt (λ s p. p)
  Works-for_each body (x ∷ xs) (step, steps) =
      Works-bind (λ _. inv) (body x) (λ _. for_each body xs) step
        (λ _. Works-for_each body xs steps)

module _ {S : Type 0} {inv : S → Type 0} where
  pub Works-when :
      (test : Bool) (m : Script S (Unit {0}))
      → Works inv m (λ _. inv)
      → Works inv (when test m) (λ _. inv)
  Works-when true m k = k
  Works-when false m k = Works-pure tt (λ s p. p)

module _ {S A : Type 0} where
  pub Ends-ok :
      (post : A → S → Type 0) (exc : S → Type 0) (r : Result A × World S) (a : A)
      → r.0 ≡ ok a
      → Ends post exc r
      → post a r.1.now
  Ends-ok post exc (ok b, w) a e h = subst (λ b. post b w.now) (ok-injective e) h
  Ends-ok post exc (err x, w) a e h = absurd (cc e)

  -- A script that works gives a result.
  pub result_of :
      {pre : S → Type 0} {m : Script S A} {post : A → S → Type 0} (w : World S)
      → Works pre m post
      → pre w.now
      → (a : A) × ((m w).0 ≡ ok a)
  result_of w k p = let (a, w', e, q) = k.at w p in (a, ap (λ r. r.0) e)
