-- ===== src/Deploy/Publish/Atomic.antt =====
-- ip_deploy.py's `publish` as a whole: at no time is half a pair served.
use aura_server.Base.{
  ◌==◌, nat_eq, ℕ, ◌≡◌, refl, ◌≢◌, inl, sym, ap, ◌∙◌, String, ◌<>◌, true, false, Option, none, some,
  List, [], ◌∷◌, Result, ok, arith, all, codes, take,
}
use mathlib.Core.Path.{subst}
use text.Mathlib.TextLemmas.{cons-append}
use aura_server.Base.Dict.{Dict, lookup}
use aura_server.Script.{Machine, ◌>>◌, change}
use aura_server.Script.Rules.{
  Holds, Ends, Seen, Holds-bind, Holds-lift, Holds-gets, Holds-change, Holds-from, Holds-assume,
}
use aura_server.Deploy.Site.{
  Site, absent, Item, folder, link, other, make_root, make_folder, find_previous, find_previous_at,
  is_pair_name, leads_to_folder,
}
use aura_server.Deploy.Site.Changes.{make_root-items}
use aura_server.Deploy.Publish.{copy_into, sync, go_live, publish}
use aura_server.Deploy.Publish.Point.{served, sync-keeps}
use aura_server.Deploy.Publish.Build.{Beside, Ready, make_folder-Holds, copy_into-Holds, Added}
use aura_server.Deploy.Publish.Live.{Prior, Sight, Published, Complete, Beside-Sees}
use aura_server.Deploy.Publish.GoLive.{go_live-Holds}

find_previous_at-Prior :
    (items : Dict Item) (o : Option Item) (previous : Option String)
    → lookup "current" items ≡ o
    → find_previous_at items o ≡ ok previous
    → Prior items previous
find_previous_at-Prior items none none same e = same
find_previous_at-Prior items none (some p) same e = absurd (cc e)
find_previous_at-Prior items (some (folder _)) previous same e = absurd (cc e)
find_previous_at-Prior items (some other) previous same e = absurd (cc e)
find_previous_at-Prior items (some (link target)) none same e = ground arith
find_previous_at-Prior items (some (link target)) (some p) same e =
    let here : target ≡ p = ground arith in
    let (named, leads) : (is_pair_name target ≡ true) × (leads_to_folder 41 items target ≡ true) =
      ground arith in
    (same ∙ ap (λ p. some (link p)) here, rw here at named, rw here at leads)

pub find_previous-Prior :
    (s : Site) (previous : Option String) → find_previous s ≡ ok previous → Prior s.items previous
unfolding find_previous
find_previous-Prior s previous e =
    find_previous_at-Prior s.items (lookup "current" s.items) previous refl e

codes_pair : (suffix : String) → codes ("pair-" <> suffix) ≡ b'p' ∷ codes ("air-" <> suffix)
codes_pair suffix = ap codes (cons-append "p" "air-" suffix)

differs_from :
    (text : String)
    → all (λ c. c == b'p') (take 1 (codes text)) ≡ false
    → (suffix : String) → ("pair-" <> suffix) ≢ text
differs_from text differs suffix e =
    let yes : all (λ c. c == b'p') (take 1 (codes text)) ≡ true =
      ap (λ l. all (λ c. c == b'p') (take 1 l)) (sym (ap codes e) ∙ codes_pair suffix) in
    absurd (cc (yes, differs))

pub generation-not_current : (suffix : String) → ("pair-" <> suffix) ≢ "current"
generation-not_current suffix = differs_from "current" refl suffix

pub generation-not_next : (suffix : String) → ("pair-" <> suffix) ≢ ".current-next"
generation-not_next suffix = differs_from ".current-next" refl suffix

module _ (h : Machine) (cert key : Result (List ℕ)) (active : List String) (s0 : Site)
    (generation : String) (not_current : generation ≢ "current")
    (not_next : generation ≢ ".current-next") (previous : Option String)
    (prior : Prior s0.items previous) where
  abbrev d : Dict Item
  d = s0.items

  -- From the new directory on.
  build-Holds :
      Holds
        (Sight cert key d)
        (λ s. (lookup generation d ≡ none) × Ready d generation (λ _. Unit {0}) s)
        (copy_into h generation "fullchain.pem" cert
          >> (copy_into h generation "privkey.pem" key
              >> (sync h >> go_live h generation previous active)))
        (λ _. Published cert key d)
        (Sight cert key d)
  build-Holds = Holds-assume _ (lookup generation d ≡ none) λ free.
      let Sees = Sight cert key d in
      let beside = Beside-Sees cert key d generation previous free prior not_current not_next in
      let see : (s : Site) → Beside d generation s → Sees s × Sees s =
        λ s b. (beside s b, beside s b) in
      let One = Added (λ _. Unit {0}) "fullchain.pem" cert in
      Holds-bind (λ _. Ready d generation One) _ _
        (copy_into-Holds h d generation Sees Sees see (λ _. Unit {0}) "fullchain.pem" cert)
        λ _.
          Holds-bind (λ _. Ready d generation (Complete cert key)) _ _
            (copy_into-Holds h d generation Sees Sees see One "privkey.pem" key)
            λ _.
              Holds-bind (λ _. Ready d generation (Complete cert key)) _ _
                (sync-keeps h Sees Sees (Ready d generation (Complete cert key))
                  (λ s r. beside s r.0) (λ s r. beside s r.0))
                λ _. Holds-from _ λ s1 ready.
                  go_live-Holds h cert key d generation not_current not_next free s1 ready previous
                    prior active

  -- From the choice of the directory's name on.
  generation-Holds :
      Holds
        (Sight cert key d)
        (λ s. s.items ≡ d)
        (change h (make_folder generation)
          >> (copy_into h generation "fullchain.pem" cert
              >> (copy_into h generation "privkey.pem" key
                  >> (sync h >> go_live h generation previous active))))
        (λ _. Published cert key d)
        (Sight cert key d)
  generation-Holds =
      Holds-bind (λ _ s. (lookup generation d ≡ none) × Ready d generation (λ _. Unit {0}) s) _ _
        (make_folder-Holds h d generation (Sight cert key d) (Sight cert key d)
          (λ s e. inl (ap served e))
          (λ free. Beside-Sees cert key d generation previous free prior not_current not_next))
        λ _. build-Holds

module _ (h : Machine) (euid : ℕ) (suffix : Site → String) (cert key : Result (List ℕ))
    (active : List String) (s0 : Site) (rooted : s0.root ≡ absent → s0.items ≡ []) where
  abbrev Same : Site → Type 0
  Same s = s.items ≡ s0.items

  unchanged : (s : Site) → Same s → Sight cert key s0.items s
  unchanged s e = inl (ap served e)

  publish-Holds :
      Holds
        (Sight cert key s0.items)
        (λ s. s ≡ s0)
        (publish h euid suffix cert key active)
        (λ _. Published cert key s0.items)
        (Sight cert key s0.items)
  unfolding publish
  publish-Holds =
      let Sees = Sight cert key s0.items in
      Holds-bind (λ _ s. s ≡ s0) _ _
        (Holds-lift _ (λ _ s _ p. p) (λ s p. unchanged s (ap (λ (s : Site). s.items) p)))
        λ _.
          Holds-bind (λ _. Same) _ _
            (Holds-change h (make_root euid)
              (λ s s' p e.
                let same : Same s' =
                  make_root-items euid s0 s' rooted (subst (λ s. make_root euid s ≡ ok s') p e) in
                (unchanged s' same, same))
              (λ s p. unchanged s (ap (λ (s : Site). s.items) p)))
            λ _.
              Holds-bind (λ _. Same) _ _ (Holds-gets _ (λ s p. p))
                λ safe.
                  Holds-bind (λ _. Same) _ _ (Holds-lift safe (λ _ s _ p. p) unchanged)
                    λ _.
                      Holds-bind (λ r s. (find_previous s ≡ r) × Same s) _ _
                        (Holds-gets _ (λ s p. (refl, p)))
                        λ found.
                          Holds-bind (λ previous s. Prior s0.items previous × Same s) _ _
                            (Holds-lift found
                              (λ previous s e (f, p). (
                                subst (λ d. Prior d previous) p
                                    (find_previous-Prior s previous (f ∙ e)),
                                p,
                              ))
                              (λ s p. unchanged s p.1))
                            λ previous. Holds-assume _ (Prior s0.items previous) λ prior.
                              Holds-bind (λ g s. ((t : String) × (g ≡ ("pair-" <> t))) × Same s) _ _
                                (Holds-gets _ (λ s p. ((suffix s, refl), p)))
                                λ generation.
                                  Holds-assume _ ((t : String) × (generation ≡ ("pair-" <> t)))
                                    λ (t, named).
                                      generation-Holds h cert key active s0 generation
                                        (λ n. generation-not_current t (sym named ∙ n))
                                        (λ n. generation-not_next t (sym named ∙ n)) previous prior

  -- Whatever calls the operating system refuses and whichever commands fail, each state that
  -- `publish` passes through, and so each that a crash can leave, serves the pair that was served
  -- at the start or the whole new pair: the bytes of the certificate and of the key as their
  -- sources give them. Where `publish` returns, the new pair is served and the directory that
  -- `current` named before stands as it was. The directory of an absent root is taken to list
  -- nothing.
  pub publish_atomic :
      (commands : List (List String))
      → let r =
          publish h euid suffix cert key active
            (record { now = s0; past = []; commands = commands }) in
        Seen (Sight cert key s0.items) r.1
        × Ends (λ (_ : Unit {0}). Published cert key s0.items) (Sight cert key s0.items) r
  publish_atomic commands =
      publish-Holds.at (record { now = s0; past = []; commands = commands }) (inl refl, tt) refl
