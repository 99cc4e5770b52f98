-- ===== src/Deploy/Publish/Live.antt =====
-- What is served in the states that ip_deploy.py's `publish` passes.
use aura_server.Base.{
  ℕ, ◌≡◌, refl, ◌≢◌, ◌⊎◌, inl, inr, sym, ◌∙◌, String, true, false, Option, none, some, List,
  string_eq, Result, ok, arith,
}
use mathlib.Core.Path.{subst}
use text.Mathlib.TextEquality.{eq_iff}
use aura_server.Base.Dict.{Dict, lookup}
use aura_server.Deploy.Site.{Site, Item, folder, link, is_pair_name, leads_to_folder}
use aura_server.Deploy.Publish.Point.{served, Agrees, Pointed}
use aura_server.Deploy.Publish.Build.{Beside, Ready, Added}

-- What `current` was: absent, or a link to a generation.
abbrev pub Prior : Dict Item → Option String → Type 0
Prior d none = lookup "current" d ≡ none
Prior d (some p) =
    (lookup "current" d ≡ some (link p)) × (is_pair_name p ≡ true) × (leads_to_folder 41 d p ≡ true)

Prior-named :
    (d : Dict Item) (previous : Option String) (p : String)
    → Prior d previous
    → lookup "current" d ≡ some (link p)
    → previous ≡ some p
Prior-named d none p prior e = absurd (cc (prior, e))
Prior-named d (some q) p (prior, _, _) e = cc

-- The pair that the two sources give.
abbrev pub New : Result (List ℕ) → Result (List ℕ) → Dict Item → Type 0
New cert key items =
    (c : List ℕ) × (k : List ℕ) × (cert ≡ ok c) × (key ≡ ok k) × (served items ≡ (some c, some k))

abbrev pub Sight : Result (List ℕ) → Result (List ℕ) → Dict Item → Site → Type 0
Sight cert key d s = (served s.items ≡ served d) ⊎ New cert key s.items

-- Afterwards the new pair is served, and the previous one stands as it was.
abbrev pub Published : Result (List ℕ) → Result (List ℕ) → Dict Item → Site → Type 0
Published cert key d s =
    New cert key s.items
    × ((p : String) → lookup "current" d ≡ some (link p) → lookup p s.items ≡ lookup p d)

served_same :
    (previous : Option String) (d e : Dict Item)
    → Prior d previous
    → lookup "current" e ≡ lookup "current" d
    → ((p : String) → previous ≡ some p → lookup p e ≡ lookup p d)
    → served e ≡ served d
unfolding served
served_same none d e prior same kept = rw (same, prior) refl
served_same (some p) d e prior same kept = rw (same, prior.0, kept p refl) refl

abbrev pub Complete : Result (List ℕ) → Result (List ℕ) → Dict (List ℕ) → Type 0
Complete cert key = Added (Added (λ _. Unit {0}) "fullchain.pem" cert) "privkey.pem" key

served-New :
    (cert key : Result (List ℕ)) (generation : String) (files : Dict (List ℕ)) (e : Dict Item)
    → lookup "current" e ≡ some (link generation)
    → lookup generation e ≡ some (folder files)
    → Complete cert key files
    → New cert key e
unfolding served
served-New cert key generation files e linked at
      ((k, gave_key, has_key), (old, ((c, gave_cert, has_cert), _), same)) =
    let kept : lookup "fullchain.pem" files ≡ some c =
      same "fullchain.pem" (λ n. ground (arith, eq_iff "fullchain.pem" "privkey.pem")) ∙ has_cert in
    (c, k, gave_cert, gave_key, rw (linked, at, kept, has_key) refl)

-- A generation is not called as the links are.
is_pair_name-not_current : (p : String) → is_pair_name p ≡ true → p ≢ "current"
unfolding is_pair_name
is_pair_name-not_current p e n = absurd (cc (rw n at e))

is_pair_name-not_next : (p : String) → is_pair_name p ≡ true → p ≢ ".current-next"
unfolding is_pair_name
is_pair_name-not_next p e n = absurd (cc (rw n at e))

module _ (cert key : Result (List ℕ)) (d : Dict Item) (generation : String)
    (previous : Option String) (free : lookup generation d ≡ none) (prior : Prior d previous)
    (not_current : generation ≢ "current") (not_next : generation ≢ ".current-next") where
  abbrev pub Sees : Site → Type 0
  Sees = Sight cert key d

  nowhere : (name : String) → lookup name d ≡ none → leads_to_folder 41 d name ≡ false
  unfolding leads_to_folder
  nowhere name e = rw e refl

  pub previous_differs :
      (p : String) → previous ≡ some p → (p ≢ generation) × (p ≢ "current") × (p ≢ ".current-next")
  previous_differs p e =
      let now : Prior d (some p) = subst (Prior d) e prior in
      (
        λ n. let lost = nowhere p (rw n free) in absurd (cc (lost, now.2)),
        is_pair_name-not_current p now.1,
        is_pair_name-not_next p now.1,
      )

  pub Beside-Sees : (s : Site) → Beside d generation s → Sight cert key d s
  Beside-Sees s b = inl (
      served_same previous d s.items prior (b "current" (λ n. not_current (sym n)))
        (λ p e. b p (previous_differs p e).0))

  module _ (s1 : Site) (ready : Ready d generation (Complete cert key) s1) where
    pub Agrees-Sees : (s : Site) → Agrees s1.items s → Sees s
    Agrees-Sees s a = inl (
        served_same previous d s.items prior
          (a "current" (λ n. ground (arith, eq_iff "current" ".current-next"))
            ∙ ready.0 "current" (λ n. not_current (sym n)))
          (λ p e. a p (previous_differs p e).2 ∙ ready.0 p (previous_differs p e).0))

    pub Linked-New :
        (s : Site)
        → lookup "current" s.items ≡ some (link generation)
        → lookup generation s.items ≡ lookup generation s1.items
        → New cert key s.items
    Linked-New s linked same =
        served-New cert key generation ready.1 s.items linked (same ∙ ready.2) ready.3

    pub Pointed-New : (s : Site) → Pointed s1.items generation s → New cert key s.items
    Pointed-New s (linked, same) = Linked-New s linked (same generation not_next not_current)

    -- The previous generation stands as before where it stands as after `point`.
    pub previous-kept :
        (s3 s : Site)
        → Pointed s1.items generation s3
        → ((p : String) → previous ≡ some p → lookup p s.items ≡ lookup p s3.items)
        → (p : String) → lookup "current" d ≡ some (link p)
        → lookup p s.items ≡ lookup p d
    previous-kept s3 s there kept p e =
        let named = Prior-named d previous p prior e in
        let (off, not_link, not_temp) = previous_differs p named in
        kept p named ∙ (there.1 p not_temp not_link ∙ ready.0 p off)

    -- The handler's `point` goes back to the previous pair, from wherever the services left it.
    module _ (p : String) (is_previous : previous ≡ some p) (s2 : Site)
        (there : Pointed s1.items generation s2) where
      pub Agrees-back : (s : Site) → Agrees s2.items s → Sees s
      Agrees-back s a = inr (
          Pointed-New s (
            a "current" (λ n. ground (arith, eq_iff "current" ".current-next")) ∙ there.0,
            λ j n m. a j n ∙ there.1 j n m,
          ))

      pub Pointed-back : (s : Site) → Pointed s2.items p s → Sees s
      Pointed-back s (linked, same) =
          let (off, not_link, not_temp) = previous_differs p is_previous in
          let now : Prior d (some p) = subst (Prior d) is_previous prior in
          inl (
            served_same (some p) d s.items now (linked ∙ sym now.0) (λ q e.
              subst (λ q. lookup q s.items ≡ lookup q d) (cc)
                (same p not_temp not_link ∙ (there.1 p not_temp not_link ∙ ready.0 p off))))

    pub Unlinked-Sees : previous ≡ none → (s : Site) → lookup "current" s.items ≡ none → Sees s
    unfolding served
    Unlinked-Sees e s gone =
        let now : lookup "current" d ≡ none = subst (Prior d) e prior in inl (rw (gone, now) refl)
