-- ===== src/Script/Finally.antt =====
-- What every state of a `try … finally` is like.
use aura_server.Base.{Error, Result, ok, err}
use aura_server.Script.{World, Script, after_all, try_finally}
use aura_server.Script.Rules.{Holds, Ends, Seen}

module _ {S A : Type 0} (sight exc : S → Type 0) (post : A → S → Type 0) where
  after_good :
      (a : A) (r : Result (Unit {0}) × World S)
      → Seen sight r.1
      → Ends (λ _. post a) exc r
      → Seen sight (after_all (ok a) r).1 × Ends post exc (after_all (ok a) r)
  after_good a (ok u, w) s e = (s, e)
  after_good a (err x, w) s e = (s, e)

  after_bad :
      (x : Error) (r : Result (Unit {0}) × World S)
      → Seen sight r.1
      → Ends (λ _. exc) exc r
      → Seen sight (after_all {A = A} (err x) r).1 × Ends post exc (after_all {A = A} (err x) r)
  after_bad x (ok u, w) s e = (s, e)
  after_bad x (err y, w) s e = (s, e)

  -- What a `finally` block keeps.
  after_all-Ends :
      (mid : S → Type 0) (f : Script S (Unit {0}))
      → ((a : A) → Holds sight (post a) f (λ _. post a) exc)
      → Holds sight mid f (λ _. exc) exc
      → (r : Result A) (w : World S) → Seen sight w
      → Ends post mid (r, w)
      → Seen sight (after_all r (f w)).1 × Ends post exc (after_all r (f w))
  after_all-Ends mid f good bad (ok a) w s e =
      let (s', e') = (good a).at w s e in after_good a (f w) s' e'
  after_all-Ends mid f good bad (err x) w s e =
      let (s', e') = bad.at w s e in after_bad x (f w) s' e'

module _ {S A : Type 0} {sight pre exc : S → Type 0} {post : A → S → Type 0} where
  pub Holds-try_finally :
      (mid : S → Type 0) (m : Script S A) (f : Script S (Unit {0}))
      → Holds sight pre m post mid
      → ((a : A) → Holds sight (post a) f (λ _. post a) exc)
      → Holds sight mid f (λ _. exc) exc
      → Holds sight pre (try_finally m f) post exc
  unfolding try_finally
  Holds-try_finally mid m f k good bad = record {
    at = λ w s p.
        let (r, w') = m w in
        let (s', e) = k.at w s p in after_all-Ends sight exc post mid f good bad r w' s' e;
  }
