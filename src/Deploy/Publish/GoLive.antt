-- ===== src/Deploy/Publish/GoLive.antt =====
-- The last steps of ip_deploy.py's `publish`: the link, the services, the older generations.
use aura_server.Base.{
  ℕ, ◌≡◌, refl, ◌≢◌, inl, inr, ap, ◌∙◌, String, Option, none, some, List, string_eq, Error, Result,
  arith,
}
use aura_server.Base.Dict.{Dict, lookup, lookup-erase}
use aura_server.Script.{Machine, for_each}
use aura_server.Script.Rules.{
  Holds, Holds-bind, Holds-pure, Holds-gets, Holds-throw, Holds-change, Holds-command,
  Holds-try_except, Holds-for_each, Holds-from, Holds-weaken,
}
use aura_server.Deploy.Site.{Site, Item, unlink}
use aura_server.Deploy.Site.Changes.{unlink-items}
use aura_server.Deploy.Publish.{point, restart_one, attempt, roll_back, retire, go_live}
use aura_server.Deploy.Publish.Point.{Pointed, point_from-Holds, sync-keeps}
use aura_server.Deploy.Publish.Build.{Ready}
use aura_server.Deploy.Publish.Retire.{Keeps, retire-Holds}
use aura_server.Deploy.Publish.Live.{
  Prior, New, Sight, Published, Complete, Agrees-Sees, Pointed-New, Agrees-back, Pointed-back,
  Unlinked-Sees, Linked-New, previous-kept,
}

module _ (h : Machine) (sight inv exc : Site → Type 0) (weak : (s : Site) → inv s → exc s) where
  pub restart_one-Holds :
      (service : String) → Holds sight inv (restart_one h service) (λ _. inv) exc
  unfolding restart_one
  restart_one-Holds service =
      Holds-bind (λ _. inv) _ _ (Holds-command h _ (λ s p. p) weak)
        λ _. Holds-command h _ (λ s p. p) weak

  pub attempt-Holds :
      (verb service : String) → Holds sight inv (attempt h verb service) (λ _. inv) exc
  unfolding attempt
  attempt-Holds verb service =
      Holds-try_except inv _ _ (Holds-command h _ (λ s p. p) (λ s p. p))
        (λ _. Holds-pure tt (λ s p. p))

module _ (h : Machine) (cert key : Result (List ℕ)) (d : Dict Item) (generation : String)
    (not_current : generation ≢ "current") (not_next : generation ≢ ".current-next")
    (free : lookup generation d ≡ none) (s1 : Site)
    (ready : Ready d generation (Complete cert key) s1) where
  abbrev Sees : Site → Type 0
  Sees = Sight cert key d

  -- After a failed restart what was served before is served again, or still the new pair.
  roll_back-Holds :
      (previous : Option String) (prior : Prior d previous) (active : List String) (e : Error)
      → Holds Sees
          (Pointed s1.items generation)
          (roll_back h previous active e)
          (λ _. Pointed s1.items generation)
          Sees
  unfolding roll_back
  roll_back-Holds (some p) prior active e = Holds-from _ λ s2 there.
      let agrees =
        Agrees-back cert key d generation (some p) free prior not_current not_next s1 ready p refl
          s2 there in
      let pointed =
        Pointed-back cert key d generation (some p) free prior not_current not_next s1 ready p refl
          s2 there in
      Holds-bind (λ _. Pointed s2.items p) (point h p) _
        (point_from-Holds h s2 p Sees Sees (λ s a. (agrees s a, agrees s a))
          (λ s a. (pointed s a, pointed s a)))
        λ _.
          Holds-bind (λ _. Pointed s2.items p) _ _
            (Holds-for_each (attempt h "restart") active pointed
              (attempt-Holds h Sees (Pointed s2.items p) Sees pointed "restart"))
            λ _. Holds-throw e pointed
  roll_back-Holds none prior active e =
      let Gone = λ (s : Site). lookup "current" s.items ≡ none in
      let back =
        Unlinked-Sees cert key d generation none free prior not_current not_next s1 ready refl in
      Holds-bind (λ _. Gone) _ _
        (Holds-change h (unlink "current")
          (λ s s' _ f.
            let gone : Gone s' =
              ground
                (arith, unlink-items "current" s s' f, lookup-erase "current" "current" s.items) in
            (back s' gone, gone))
          (λ s there. inr (
            Pointed-New cert key d generation none free prior not_current not_next s1 ready s
              there)))
        λ _.
          Holds-bind (λ _. Gone) _ _ (sync-keeps h Sees Sees Gone back back)
            λ _.
              Holds-bind (λ _. Gone) _ _
                (Holds-for_each (attempt h "stop") active back
                  (attempt-Holds h Sees Gone Sees back "stop"))
                λ _. Holds-throw e back

  -- From a complete generation: the new pair is served, and the previous one stays.
  module _ (previous : Option String) (prior : Prior d previous) where
    retire_all-Holds :
        (olds : List String) (s3 : Site) (there : Pointed s1.items generation s3)
        → Holds Sees
            (λ s. s ≡ s3)
            (for_each (retire h generation previous) olds)
            (λ _. Published cert key d)
            Sees
    retire_all-Holds olds s3 there =
        let new : (s : Site) → Keeps s3.items generation previous s → New cert key s.items = λ s k.
          Linked-New cert key d generation previous free prior not_current not_next s1 ready s
            (k "current" (inl refl) ∙ there.0)
            (k generation (inr (inl refl)) ∙ there.1 generation not_next not_current) in
        let sees : (s : Site) → Keeps s3.items generation previous s → Sees s =
          λ s k. inr (new s k) in
        Holds-weaken (λ s. s ≡ s3) (λ _. Published cert key d) Sees _
          (λ s q j _. ap (λ (s : Site). lookup j s.items) q)
          (λ _ s k. (
            new s k,
            previous-kept cert key d generation previous free prior not_current not_next s1 ready s3
                s there (λ p e. k p (inr (inr e))),
          ))
          (λ _ p. p)
          (Holds-for_each (retire h generation previous) olds sees (
            retire-Holds h s3.items generation previous Sees Sees there.0
              (λ s k. (sees s k, sees s k))))

    pub go_live-Holds :
        (active : List String)
        → Holds Sees
            (λ s. s ≡ s1)
            (go_live h generation previous active)
            (λ _. Published cert key d)
            Sees
    unfolding go_live
    go_live-Holds active =
        let agrees =
          Agrees-Sees cert key d generation previous free prior not_current not_next s1 ready in
        let pointed : (s : Site) → Pointed s1.items generation s → Sees s = λ s p. inr (
          Pointed-New cert key d generation previous free prior not_current not_next s1 ready s
            p) in
        Holds-bind (λ _. Pointed s1.items generation) _ _
          (point_from-Holds h s1 generation Sees Sees (λ s a. (agrees s a, agrees s a))
            (λ s a. (pointed s a, pointed s a)))
          λ _.
            Holds-bind (λ _. Pointed s1.items generation) _ _
              (Holds-try_except (Pointed s1.items generation) _ _
                (Holds-for_each (restart_one h) active (λ _ p. p)
                  (restart_one-Holds h Sees (Pointed s1.items generation)
                    (Pointed s1.items generation) (λ _ p. p)))
                (roll_back-Holds previous prior active))
              λ _.
                Holds-bind (λ _. Pointed s1.items generation) _ _ (Holds-gets _ (λ _ p. p))
                  λ olds. Holds-from _ (retire_all-Holds olds)
