-- ===== src/Deploy/Publish/Returns.antt =====
-- ip_deploy.py's `publish` where nothing is refused.
use aura_server.Base.{
  ◌==◌, nat_eq, ℕ, ◌≡◌, refl, ◌≢◌, ◌⊎◌, inl, inr, sym, ap, ◌∙◌, String, ◌<>◌, true, Option, none,
  some, List, [], ◌∷◌, All, ok, arith, all, contains,
}
use mathlib.Core.Path.{subst}
use aura_server.Base.Dict.{Dict, keys, lookup, insert}
use aura_server.Script.{Machine, ◌>>◌, change}
use aura_server.Script.Total.{
  IsWilling, Works, Works-bind, Works-gets, Works-lift, Works-read, Works-assume, Works-weaken,
  Works-change, Works-command, Works-for_each, Works-try_except,
}
use aura_server.Deploy.Site.{
  Site, Root, absent, real, unreal, Item, folder, link, other, make_root, check_root, make_folder,
  set_item, find_previous, find_previous_at,
}
use aura_server.Deploy.Publish.{
  services, copy_into, sync, restart_one, retire, pairs, go_live, publish,
}
use aura_server.Deploy.Publish.Steps.{
  IsFlat, IsClear, Holding, folder_set, sync-Works, point-Works, copy_into-Works,
}
use aura_server.Deploy.Publish.Removal.{retire-Works}
use aura_server.Deploy.Publish.Atomic.{generation-not_current, generation-not_next}

-- The directory can be used: it is to be made, or is the caller's own and closed to others; what `current`
-- names is a pair; and no directory stands where the new link is made.
pub record IsUsable (euid : ℕ) (s : Site) : Type 0 where
  pub root : ((s.root ≡ absent) × (s.items ≡ [])) ⊎ (check_root euid s ≡ ok tt)
  pub previous : (p : Option String) × (find_previous s ≡ ok p)
  pub next : IsFlat (lookup ".current-next" s.items)

current_flat :
    (items : Dict Item) (o : Option Item) (p : Option String)
    → find_previous_at items o ≡ ok p
    → IsFlat o
current_flat items none p e = tt
current_flat items (some (link _)) p e = tt
current_flat items (some (folder _)) p e = absurd (cc e)
current_flat items (some other) p e = absurd (cc e)

IsUsable-IsClear : (euid : ℕ) (s : Site) → IsUsable euid s → IsClear s
unfolding find_previous
IsUsable-IsClear euid s u =
    let (p, e) = u.previous in (current_flat s.items (lookup "current" s.items) p e, u.next)

pub IsUsable-rooted : (euid : ℕ) (s : Site) → IsUsable euid s → s.root ≡ absent → s.items ≡ []
unfolding check_root
IsUsable-rooted euid s u gone = elim (u.root) [
  | inl (_, e) ↦ e
  | inr e ↦ absurd (cc (rw gone at e))
]

module _ (euid : ℕ) (s : Site) where
  -- After `mkdir` the directory is the caller's, and lists what it listed.
  abbrev IsMade : Type 0
  IsMade =
      (s' : Site) × (make_root euid s ≡ ok s') × (check_root euid s' ≡ ok tt) × (s'.items ≡ s.items)

  own_made : (r : Root) → s.root ≡ r → check_root euid s ≡ ok tt → IsMade
  unfolding make_root check_root
  own_made absent e own = absurd (cc (rw e at own))
  own_made (real uid mode) e own = (s, rw e refl, own, refl)
  own_made (unreal leads) e own = absurd (cc (rw e at own))

  absent_made : s.root ≡ absent → s.items ≡ [] → IsMade
  unfolding make_root check_root
  absent_made e empty =
      let same : (euid == euid) ≡ true = ground arith in
      (record { root = real euid 0o700; items = [] }, rw e refl, rw same refl, sym empty)

  IsUsable-made : IsUsable euid s → IsMade
  IsUsable-made u = elim (u.root) [
    | inl (gone, empty) ↦ absent_made gone empty
    | inr own ↦ own_made s.root refl own
  ]

find_previous_same : (s s' : Site) → s'.items ≡ s.items → find_previous s' ≡ find_previous s
unfolding find_previous
find_previous_same s s' e = ap (λ d. find_previous_at d (lookup "current" d)) e

-- The name of the new generation is free.
abbrev Open : String → Site → Type 0
Open generation s = (lookup generation s.items ≡ none) × IsClear s

module _ (h : Machine) (willing : IsWilling h) where
  restart_one-Works :
      (service : String) → Works (λ _. Unit {0}) (restart_one h service) (λ _ _. Unit {0})
  unfolding restart_one
  restart_one-Works service =
      Works-bind (λ _ _. Unit {0}) _ _ (Works-command h willing (λ _. Unit {0}) _ (λ s p. p))
        λ _. Works-command h willing (λ _. Unit {0}) _ (λ s p. p)

  restarts :
      (active : List String)
      → All (λ service. Works (λ _. Unit {0}) (restart_one h service) (λ _ _. Unit {0})) active
  restarts [] = tt
  restarts (service ∷ active) = (restart_one-Works service, restarts active)

  module _ (generation : String) (previous : Option String) where
    retires :
        (olds : List String)
        → All
            (λ old. Works (λ _. Unit {0}) (retire h generation previous old) (λ _ _. Unit {0}))
            olds
    retires [] = tt
    retires (old ∷ olds) = (retire-Works h willing old generation previous, retires olds)

    go_live-Works :
        (active : List String)
        → Works IsClear (go_live h generation previous active) (λ _ _. Unit {0})
    unfolding go_live
    go_live-Works active =
        Works-bind (λ _ _. Unit {0}) _ _ (point-Works h willing generation)
          λ _.
            Works-bind (λ _ _. Unit {0}) _ _
              (Works-try_except _ _ (Works-for_each (restart_one h) active (restarts active)))
              λ _.
                Works-bind (λ _ _. Unit {0}) _ _ (Works-gets (λ s. pairs (keys s.items)) (λ s p. p))
                  λ olds. Works-for_each (retire h generation previous) olds (retires olds)

    build-Works :
        (cert key : List ℕ) (active : List String)
        → generation ≢ "current"
        → generation ≢ ".current-next"
        → Works
            (Open generation)
            (change h (make_folder generation)
              >> (copy_into h generation "fullchain.pem" (ok cert)
                  >> (copy_into h generation "privkey.pem" (ok key)
                      >> (sync h >> go_live h generation previous active))))
            (λ _ _. Unit {0})
    unfolding make_folder lookup insert
    build-Works cert key active not_current not_next =
        let one : Dict (List ℕ) = insert "fullchain.pem" cert (insert "fullchain.pem" [] []) in
        let both : Dict (List ℕ) = insert "privkey.pem" key (insert "privkey.pem" [] one) in
        Works-bind (λ _. Holding generation []) _ _
          (Works-change h willing (Holding generation []) (make_folder generation)
            λ s (free, clear). (
              set_item generation (folder []) s,
              rw free refl,
              folder_set generation [] s not_current not_next clear,
            ))
          λ _.
            Works-bind (λ _. Holding generation one) _ _
              (copy_into-Works h willing generation not_current not_next "fullchain.pem" cert []
                refl)
              λ _.
                Works-bind (λ _. Holding generation both) _ _
                  (copy_into-Works h willing generation not_current not_next "privkey.pem" key one
                    refl)
                  λ _.
                    Works-bind (λ _. IsClear) _ _
                      (Works-weaken (Holding generation both) (λ _. IsClear) _ (λ s p. p.1)
                        (λ _ s p. p) (sync-Works h willing IsClear))
                      λ _. go_live-Works active

module _ (h : Machine) (euid : ℕ) (suffix : Site → String) (cert key : List ℕ)
    (active : List String) where
  pub publish-Works :
      (s0 : Site)
      → IsWilling h
      → ((s : Site) → lookup ("pair-" <> suffix s) s.items ≡ none)
      → all (contains services) active ≡ true
      → IsUsable euid s0
      → Works (λ s. s ≡ s0) (publish h euid suffix (ok cert) (ok key) active) (λ _ _. Unit {0})
  unfolding publish
  publish-Works s0 willing new known usable =
      let (s1, made, own, same) = IsUsable-made euid s0 usable in
      let (previous0, found) = usable.previous in
      let clear : IsClear s1 =
        subst (λ d. IsFlat (lookup "current" d) × IsFlat (lookup ".current-next" d)) (sym same)
          (IsUsable-IsClear euid s0 usable) in
      Works-bind (λ _ s. s ≡ s0) _ _ (Works-lift _ tt (rw known refl) (λ s p. p))
        λ _.
          Works-bind (λ _ s. s ≡ s1) _ _
            (Works-change h willing (λ s. s ≡ s1) (make_root euid)
              (λ s p. (s1, ap (make_root euid) p ∙ made, refl)))
            λ _.
              Works-read (λ _ s. s ≡ s1) _ _ (λ s p. (tt, ap (check_root euid) p ∙ own, p))
                λ _.
                  Works-read (λ _ s. s ≡ s1) _ _
                    (λ s p.
                      (previous0, ap find_previous p ∙ (find_previous_same s0 s1 same ∙ found), p))
                    λ previous.
                      Works-bind (λ g s. ((t : String) × (g ≡ ("pair-" <> t))) × Open g s) _ _
                        (Works-gets _
                          (λ s p. ((suffix s, refl), (new s, subst IsClear (sym p) clear))))
                        λ generation.
                          Works-assume _ ((t : String) × (generation ≡ ("pair-" <> t)))
                            λ (t, named).
                              build-Works h willing generation previous cert key active
                                (λ n. generation-not_current t (sym named ∙ n))
                                (λ n. generation-not_next t (sym named ∙ n))
