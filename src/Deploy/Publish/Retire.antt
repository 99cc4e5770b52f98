-- ===== src/Deploy/Publish/Retire.antt =====
-- The removal of older generations at the end of ip_deploy.py's `publish`.
use aura_server.Base.{
  ℕ, ◌≡◌, refl, ◌≢◌, ◌⊎◌, sym, ap, ◌∙◌, String, Bool, true, false, Option, none, some, List,
  string_eq, Result, ok, arith, inl, inr,
}
use aura_server.Base.Dict.{Dict, lookup, lookup-insert, lookup-erase}
use aura_server.Script.{Machine, ◌>>◌, gets, when, change}
use aura_server.Script.Rules.{Holds, Holds-bind, Holds-pure, Holds-gets, Holds-change}
use aura_server.Deploy.Site.{Site, Item, folder, link, other, in_folder, unlink_file, rmdir}
use aura_server.Deploy.Site.Changes.{in_folder-items, rmdir-items}
use aura_server.Deploy.Publish.{retire, is_outdated, is_outdated_at}
use text.Mathlib.TextEquality.{eq_iff}

-- What has to stay: `current`, the new generation, and the previous one.
abbrev pub Kept : String → Option String → String → Type 0
Kept generation previous j = (j ≡ "current") ⊎ (j ≡ generation) ⊎ (previous ≡ some j)

-- They stand as in `d`.
abbrev pub Keeps : Dict Item → String → Option String → Site → Type 0
Keeps d generation previous s =
    (j : String) → Kept generation previous j → lookup j s.items ≡ lookup j d

module _ (generation old : String) where
  is_outdated_at-names :
      (previous : Option String) (o : Option Item)
      → is_outdated_at generation previous old o ≡ true
      → ((files : Dict (List ℕ)) × (o ≡ some (folder files)))
        × (old ≢ generation)
        × (previous ≢ some old)
  is_outdated_at-names previous none e = absurd (cc e)
  is_outdated_at-names previous (some (link _)) e = absurd (cc e)
  is_outdated_at-names previous (some other) e = absurd (cc e)
  is_outdated_at-names none (some (folder files)) e =
      ((files, refl), λ n. ground (arith, eq_iff old generation), λ n. absurd (cc n))
  is_outdated_at-names (some p) (some (folder files)) e =
      ((files, refl), λ n. ground (arith, eq_iff old generation), λ n. ground (arith, eq_iff old p))

module _ (d : Dict Item) (generation : String) (previous : Option String) (old : String) where
  -- What is retired is none of what stays.
  is_outdated-not_Kept :
      (s : Site)
      → lookup "current" d ≡ some (link generation)
      → Keeps d generation previous s
      → is_outdated generation previous old s ≡ true
      → (j : String) → Kept generation previous j
      → old ≢ j
  unfolding is_outdated
  is_outdated-not_Kept s current keeps e j k =
      let ((files, there), off, away) =
        is_outdated_at-names generation old previous (lookup old s.items) e in
      elim k [
        | inl c ↦ λ n. ground (arith, keeps "current" (inl refl), n ∙ c)
        | inr (inl c) ↦ λ n. off (n ∙ c)
        | inr (inr c) ↦ λ n. away (c ∙ ap some (sym n))
      ]

  -- While an older generation is removed.
  abbrev Retiring : Bool → Site → Type 0
  Retiring outdated s =
      Keeps d generation previous s
      × (outdated ≡ true → (j : String) → Kept generation previous j → old ≢ j)

  Keeps-in_folder :
      (f : Dict (List ℕ) → Result (Dict (List ℕ))) (s s' : Site)
      → Retiring true s
      → in_folder old f s ≡ ok s'
      → Retiring true s'
  Keeps-in_folder f s s' (keeps, off) e =
      let (_, new, _, _, items) = in_folder-items old s s' f e in
      (
        λ j k. ground (
          arith,
          items,
          lookup-insert old j (folder new) s.items,
          eq_iff old j,
          keeps j k,
          off refl j k,
        ),
        off,
      )

  Keeps-rmdir :
      (s s' : Site) → Retiring true s → rmdir old s ≡ ok s' → Keeps d generation previous s'
  Keeps-rmdir s s' (keeps, off) e = λ j k. ground (
    arith,
    rmdir-items old s s' e,
    lookup-erase old j s.items,
    eq_iff old j,
    keeps j k,
    off refl j k,
  )

module _ (h : Machine) (d : Dict Item) (generation : String) (previous : Option String) where
  module _ (sight exc : Site → Type 0) (current : lookup "current" d ≡ some (link generation))
      (see : (s : Site) → Keeps d generation previous s → sight s × exc s) where
    drop_file-Holds :
        (old name : String)
        → Holds sight
            (Retiring d generation previous old true)
            (change h (in_folder old (unlink_file name)))
            (λ _. Retiring d generation previous old true)
            exc
    drop_file-Holds old name =
        Holds-change h (in_folder old (unlink_file name))
          (λ s s' r e.
            let k = Keeps-in_folder d generation previous old (unlink_file name) s s' r e in
            ((see s' k.0).0, k))
          (λ s r. (see s r.0).1)

    remove-Holds :
        (old : String) (outdated : Bool)
        → Holds sight
            (Retiring d generation previous old outdated)
            (when outdated (
              change h (in_folder old (unlink_file "fullchain.pem"))
              >> (change h (in_folder old (unlink_file "privkey.pem")) >> change h (rmdir old))))
            (λ _. Keeps d generation previous)
            exc
    remove-Holds old false = Holds-pure tt (λ s r. r.0)
    remove-Holds old true =
        Holds-bind (λ _. Retiring d generation previous old true) _ _
          (drop_file-Holds old "fullchain.pem")
          λ _.
            Holds-bind (λ _. Retiring d generation previous old true) _ _
              (drop_file-Holds old "privkey.pem")
              λ _.
                Holds-change h (rmdir old)
                  (λ s s' r e.
                    let k = Keeps-rmdir d generation previous old s s' r e in ((see s' k).0, k))
                  (λ s r. (see s r.0).1)

    -- Whichever directory is tried, what has to stay stays.
    pub retire-Holds :
        (old : String)
        → Holds sight
            (Keeps d generation previous)
            (retire h generation previous old)
            (λ _. Keeps d generation previous)
            exc
    unfolding retire
    retire-Holds old =
        Holds-bind (Retiring d generation previous old) (gets (is_outdated generation previous old))
          _ (Holds-gets _ (λ s k. (k, is_outdated-not_Kept d generation previous old s current k)))
          λ outdated. remove-Holds old outdated
