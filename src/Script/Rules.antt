-- ===== src/Script/Rules.antt =====
-- What every state of a run is like: one rule for each way to build a script.
use aura_server.Base.{
  ok-injective, ◌≡◌, refl, String, List, [], ◌∷◌, length, All, Bool-cases, inl, inr, Error, Result,
  ok, err,
}
use mathlib.Core.Path.{subst}
use aura_server.Script.{
  World, Machine, Script, pure, throw, lift, gets, continue, ◌>>=◌, recover, try_except, for_each,
  applied, change, command,
}

module _ {S : Type 0} (sight : S → Type 0) where
  -- Every state of the files so far, the present one included, is as `sight` says.
  abbrev pub Seen : World S → Type 0
  Seen w = sight w.now × All sight w.past

module _ {S A : Type 0} where
  -- Where a run ends: `post` after a result, `exc` after an exception.
  abbrev pub Ends : (A → S → Type 0) → (S → Type 0) → Result A × World S → Type 0
  Ends post exc (ok a, w) = post a w.now
  Ends post exc (err e, w) = exc w.now

  -- From a state with `pre`, whatever the machine decides, every state is as `sight` says, and the
  -- last one has `post` or `exc`.
  pub record Holds (sight pre : S → Type 0) (m : Script S A) (post : A → S → Type 0)
      (exc : S → Type 0) : Type 0 where
    pub at : (w : World S) → Seen sight w → pre w.now → Seen sight (m w).1 × Ends post exc (m w)

module _ {S A B : Type 0} (sight exc : S → Type 0) (post : B → S → Type 0) where
  continue-Ends :
      (mid : A → S → Type 0) (f : A → Script S B) (r : Result A) (w : World S)
      → ((a : A) → Holds sight (mid a) (f a) post exc)
      → Seen sight w
      → Ends mid exc (r, w)
      → Seen sight (continue f r w).1 × Ends post exc (continue f r w)
  continue-Ends mid f (ok a) w k s e = (k a).at w s e
  continue-Ends mid f (err x) w k s e = (s, e)

module _ {S A : Type 0} (sight exc : S → Type 0) (post : A → S → Type 0) where
  recover-Ends :
      (mid : S → Type 0) (f : Error → Script S A) (r : Result A) (w : World S)
      → ((e : Error) → Holds sight mid (f e) post exc)
      → Seen sight w
      → Ends post mid (r, w)
      → Seen sight (recover f r w).1 × Ends post exc (recover f r w)
  recover-Ends mid f (ok a) w k s e = (s, e)
  recover-Ends mid f (err x) w k s e = (k x).at w s e

module _ {S A : Type 0} (exc : S → Type 0) (post : A → S → Type 0) where
  lift-Ends :
      (r : Result A) (w : World S)
      → ((a : A) → r ≡ ok a → post a w.now)
      → exc w.now
      → Ends post exc (r, w)
  lift-Ends (ok a) w h k = h a refl
  lift-Ends (err e) w h k = k

  weaken-Ends :
      (post' : A → S → Type 0) (exc' : S → Type 0) (r : Result A) (w : World S)
      → ((a : A) (s : S) → post a s → post' a s)
      → ((s : S) → exc s → exc' s)
      → Ends post exc (r, w)
      → Ends post' exc' (r, w)
  weaken-Ends post' exc' (ok a) w h k e = h a w.now e
  weaken-Ends post' exc' (err x) w h k e = k w.now e

module _ {S A B : Type 0} {sight pre exc : S → Type 0} {post : B → S → Type 0} where
  pub Holds-bind :
      (mid : A → S → Type 0) (m : Script S A) (f : A → Script S B)
      → Holds sight pre m mid exc
      → ((a : A) → Holds sight (mid a) (f a) post exc)
      → Holds sight pre (m >>= f) post exc
  unfolding ◌>>=◌
  Holds-bind mid m f k l = record {
    at = λ w s p.
        let (r, w') = m w in
        let (s', e) = k.at w s p in continue-Ends sight exc post mid f r w' l s' e;
  }

module _ {S A : Type 0} {sight pre exc : S → Type 0} {post : A → S → Type 0} where
  pub Holds-try_except :
      (mid : S → Type 0) (m : Script S A) (f : Error → Script S A)
      → Holds sight pre m post mid
      → ((e : Error) → Holds sight mid (f e) post exc)
      → Holds sight pre (try_except m f) post exc
  unfolding try_except
  Holds-try_except mid m f k l = record {
    at = λ w s p.
        let (r, w') = m w in
        let (s', e) = k.at w s p in recover-Ends sight exc post mid f r w' l s' e;
  }

  pub Holds-pure : (a : A) → ((s : S) → pre s → post a s) → Holds sight pre (pure a) post exc
  unfolding pure
  Holds-pure a h = record { at = λ w s p. (s, h w.now p) }

  pub Holds-throw : (e : Error) → ((s : S) → pre s → exc s) → Holds sight pre (throw e) post exc
  unfolding throw
  Holds-throw e h = record { at = λ w s p. (s, h w.now p) }

  pub Holds-gets :
      (f : S → A) → ((s : S) → pre s → post (f s) s) → Holds sight pre (gets f) post exc
  unfolding gets
  Holds-gets f h = record { at = λ w s p. (s, h w.now p) }

  pub Holds-lift :
      (r : Result A)
      → ((a : A) (s : S) → r ≡ ok a → pre s → post a s)
      → ((s : S) → pre s → exc s)
      → Holds sight pre (lift r) post exc
  unfolding lift
  Holds-lift r h k = record {
    at = λ w s p. (s, lift-Ends exc post r w (λ a e. h a w.now e p) (k w.now p));
  }

  pub Holds-weaken :
      (pre' : S → Type 0) (post' : A → S → Type 0) (exc' : S → Type 0) (m : Script S A)
      → ((s : S) → pre' s → pre s)
      → ((a : A) (s : S) → post a s → post' a s)
      → ((s : S) → exc s → exc' s)
      → Holds sight pre m post exc
      → Holds sight pre' m post' exc'
  Holds-weaken pre' post' exc' m f g h k = record {
    at = λ w s p.
        let (r, w') = m w in
        let (s', e) = k.at w s (f w.now p) in (s', weaken-Ends exc post post' exc' r w' g h e);
  }

  -- The state a script starts from, under a name.
  pub Holds-from :
      (m : Script S A)
      → ((s0 : S) → pre s0 → Holds sight (λ s. s ≡ s0) m post exc)
      → Holds sight pre m post exc
  Holds-from m k = record { at = λ w s p. (k w.now p).at w s refl }

  -- A fact that does not depend on the state.
  pub Holds-assume :
      (m : Script S A) (fact : Type 0)
      → (fact → Holds sight pre m post exc)
      → Holds sight (λ s. fact × pre s) m post exc
  Holds-assume m fact k = record { at = λ w s (f, p). (k f).at w s p }

applied-Ends :
    {S : Type 0} (sight post exc : S → Type 0) (r : Result S) (w : World S)
    → Seen sight w
    → ((s : S) → r ≡ ok s → sight s × post s)
    → exc w.now
    → Seen sight (applied r w).1 × Ends (λ (_ : Unit {0}). post) exc (applied r w)
applied-Ends sight post exc (ok s) w seen h k = ((((h s refl).0), seen), (h s refl).1)
applied-Ends sight post exc (err e) w seen h k = ((seen.0, seen), k)

module _ {S : Type 0} {sight pre post exc : S → Type 0} (h : Machine) where
  -- A change is made whole, or refused.
  pub Holds-change :
      (f : S → Result S)
      → ((s s' : S) → pre s → f s ≡ ok s' → sight s' × post s')
      → ((s : S) → pre s → exc s)
      → Holds sight pre (change h f) (λ _. post) exc
  unfolding change
  Holds-change f good bad = record {
    at = λ w s p. elim (Bool-cases (h.refuses (length w.past))) [
      | inl e ↦ rw e ((s.0, s), bad w.now p)
      | inr e ↦
          rw e (applied-Ends sight post exc (f w.now) w s (λ s' q. good w.now s' p q) (bad w.now p))
    ];
  }

  -- A change that is never refused by the state of the files.
  pub Holds-update :
      (g : S → S)
      → ((s : S) → pre s → sight (g s) × post (g s))
      → ((s : S) → pre s → exc s)
      → Holds sight pre (change h (λ s. ok (g s))) (λ _. post) exc
  Holds-update g good bad =
      Holds-change (λ s. ok (g s))
        (λ s s' p e. subst (λ s. sight s × post s) (ok-injective e) (good s p)) bad

  pub Holds-command :
      (args : List String)
      → ((s : S) → pre s → post s)
      → ((s : S) → pre s → exc s)
      → Holds sight pre (command h args) (λ _. post) exc
  unfolding command
  Holds-command args good bad = record {
    at = λ w s p. elim (Bool-cases (h.succeeds w.commands args)) [
      | inl e ↦ rw e (s, good w.now p)
      | inr e ↦ rw e (s, bad w.now p)
    ];
  }

module _ {S A : Type 0} {sight inv exc : S → Type 0} where
  pub Holds-for_each :
      (body : A → Script S (Unit {0})) (xs : List A)
      → ((s : S) → inv s → exc s)
      → ((x : A) → Holds sight inv (body x) (λ _. inv) exc)
      → Holds sight inv (for_each body xs) (λ _. inv) exc
  unfolding for_each
  Holds-for_each body [] weak step = Holds-pure tt (λ s p. p)
  Holds-for_each body (x ∷ xs) weak step =
      Holds-bind (λ _. inv) (body x) (λ _. for_each body xs) (step x)
        (λ _. Holds-for_each body xs weak step)
