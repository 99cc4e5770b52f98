-- ===== src/Renew/Install/Copy.antt =====
-- What `atomic_copy` of renew.py keeps on its way.
use aura_server.Base.{
  ℕ, ◌≡◌, refl, ◌∙◌, String, Bool, true, false, Option, none, some, List, Result, ok, ok-injective,
}
use mathlib.Core.Path.{subst}
use aura_server.Base.Dict.{Dict, lookup, erase, lookup-insert_self}
use aura_server.Script.{Machine, change, when}
use aura_server.Script.Rules.{
  Holds, Holds-bind, Holds-gets, Holds-lift, Holds-change, Holds-update, Holds-pure, Holds-assume,
}
use aura_server.Script.Finally.{Holds-try_finally}
use aura_server.Renew.State.{
  File, Owner, make_temp, make_temp_at, drop_temp, Place, put, replace_temp, replace_temp_at,
}
use aura_server.Renew.Install.{settle, clean_temp, copy_by, atomic_copy}

-- What is asked of the files that have names of their own.
abbrev pub Files : Type 1
Files = Dict File → Option (Dict (List ℕ)) → Option (Dict (List ℕ)) → Type 0

abbrev pub On : Files → Owner → Type 0
On P s = P s.live s.backup s.staged

make_temp-On :
    (P : Files) (temp : String) (s s' : Owner) (o : Option (List ℕ))
    → On P s
    → make_temp_at temp s o ≡ ok s'
    → On P s'
make_temp-On P temp s s' none p e = subst (On P) (ok-injective e) p
make_temp-On P temp s s' (some _) p e = absurd (cc e)

module _ (h : Machine) (P E : Files) (weak : (s : Owner) → On P s → On E s) where
  pub settle-Holds : Holds (On E) (On P) (settle h) (λ _. On P) (On E)
  unfolding settle
  settle-Holds = Holds-update h (λ s. s) (λ s p. (weak s p, p)) weak

  drop-Holds :
      (temp : String) (left : Bool)
      → Holds (On E) (On P) (when left (change h (drop_temp temp))) (λ _. On P) (On E)
  drop-Holds temp true = Holds-update h _ (λ s p. (weak s p, p)) weak
  drop-Holds temp false = Holds-pure tt (λ s p. p)

  clean_temp-Holds : (temp : String) → Holds (On E) (On P) (clean_temp h temp) (λ _. On P) (On E)
  unfolding clean_temp
  clean_temp-Holds temp =
      Holds-bind (λ _. On P) _ _ (Holds-gets _ (λ s p. p)) λ left. drop-Holds temp left

module _ (h : Machine) (P Q E : Files) (weak : (s : Owner) → On P s → On E s)
    (weak' : (s : Owner) → On Q s → On E s) (source : Owner → Result (List ℕ)) (F : List ℕ → Type 0)
    (reads : (s : Owner) (b : List ℕ) → On P s → source s ≡ ok b → F b) (uid : ℕ) (place : Place)
    (puts : (s s' : Owner) (b : List ℕ) → On P s → F b → put uid place b s ≡ ok s' → On Q s') where
  replace-On :
      (temp : String) (bytes : List ℕ) (s s' : Owner) (o : Option (List ℕ))
      → lookup temp s.temps ≡ o
      → On P s
      → lookup temp s.temps ≡ some bytes
      → F bytes
      → replace_temp_at uid temp place s o ≡ ok s'
      → On Q s'
  replace-On temp bytes s s' none same p e f g = absurd (cc g)
  replace-On temp bytes s s' (some other) same p e f g =
      let equal : bytes ≡ other = cc in
      puts (record s { temps = erase temp s.temps }) s' other p (subst F equal f) g

  copy_by-Holds :
      (temp : String) → Holds (On E) (On P) (copy_by h temp source uid place) (λ _. On Q) (On E)
  unfolding copy_by
  copy_by-Holds temp =
      Holds-bind (λ _. On P) _ _ (settle-Holds h P E weak)
        λ _.
          Holds-bind (λ _. On P) _ _ (settle-Holds h P E weak)
            λ _.
              Holds-bind (λ r s. (source s ≡ r) × On P s) _ _ (Holds-gets source (λ s p. (refl, p)))
                λ given.
                  Holds-bind (λ bytes s. F bytes × On P s) _ _
                    (Holds-lift given (λ b s e (q, p). (reads s b p (q ∙ e), p))
                      (λ s p. weak s p.1))
                    λ bytes. Holds-assume _ (F bytes) λ f.
                      Holds-bind (λ _ s. On P s × (lookup temp s.temps ≡ some bytes)) _ _
                        (Holds-update h _
                          (λ s p. (weak s p, (p, lookup-insert_self temp bytes s.temps))) weak)
                        λ _.
                          Holds-bind (λ _ s. On P s × (lookup temp s.temps ≡ some bytes)) _ _
                            (unfold settle in
                              Holds-update h (λ s. s) (λ s p. (weak s p.0, p)) (λ s p. weak s p.0))
                            λ _.
                              Holds-bind (λ _. On Q) _ _
                                (Holds-change h (replace_temp uid temp place)
                                  (λ s s' (p, e) g.
                                    let q =
                                      replace-On temp bytes s s' (lookup temp s.temps) refl p e f
                                        g in
                                    (weak' s' q, q))
                                  (λ s p. weak s p.0))
                                λ _. settle-Holds h Q E weak'

  -- Before the rename the files are as `P` says, afterwards as `Q` says.
  pub atomic_copy-Holds :
      (fresh : Owner → String)
      → Holds (On E) (On P) (atomic_copy h fresh source uid place) (λ _. On Q) (On E)
  unfolding atomic_copy
  atomic_copy-Holds fresh =
      Holds-bind (λ _. On P) _ _ (Holds-gets fresh (λ s p. p))
        λ temp.
          Holds-bind (λ _. On P) _ _
            (Holds-change h (make_temp temp)
              (λ s s' p e.
                let q = make_temp-On P temp s s' (lookup temp s.temps) p e in (weak s' q, q))
              weak)
            λ _.
              Holds-try_finally (On E) _ _ (copy_by-Holds temp)
                (λ _. clean_temp-Holds h Q E weak' temp) (clean_temp-Holds h E E (λ s e. e) temp)
