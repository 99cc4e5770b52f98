-- ===== src/Deploy/Publish/Removal.antt =====
-- An older generation is removed by ip_deploy.py's `publish`, where nothing is refused.
use aura_server.Base.{
  ℕ, ◌≡◌, ◌≢◌, refl, sym, ap, ◌∙◌, ◌⊎◌, inl, inr, String, Bool, Bool-cases, true, false, ◌&&◌, ◌||◌,
  Option, none, some, List, [], ◌∷◌, all, contains, ◌==◌, string_eq, ok, arith,
}
use text.Mathlib.TextEquality.{eq_iff}
use aura_server.Base.Dict.{
  Dict, keys, lookup, erase, lookup-insert_self, lookup-erase, contains-keys,
}
use aura_server.Script.{Machine, ◌>>◌, when, change}
use aura_server.Script.Total.{
  IsWilling, Works, Works-bind, Works-pure, Works-gets, Works-weaken, Works-from, Works-change,
}
use aura_server.Deploy.Site.{
  Site, Item, folder, link, other, in_folder, unlink_file, rmdir, set_item, drop_item,
}
use aura_server.Deploy.Publish.{retire, is_outdated, is_outdated_at}
use aura_server.Deploy.Publish.Steps.{in_folder_found}

one_of_two :
    (k : String) (rest : Bool)
    → (("fullchain.pem" == k || ("privkey.pem" == k || false)) && rest) ≡ true
    → ((k ≡ "fullchain.pem") ⊎ (k ≡ "privkey.pem")) × (rest ≡ true)
one_of_two k rest e = elim (Bool-cases ("fullchain.pem" == k)) [
  | inl f ↦ (inl (sym ((eq_iff "fullchain.pem" k).0 f)), ground (arith, e))
  | inr f ↦ (inr (sym ((eq_iff "privkey.pem" k).0 (ground (arith, e, f)))), ground (arith, e))
]

-- What is left of a complete pair without its two files.
nothing_left :
    (files : Dict (List ℕ))
    → all (contains ("fullchain.pem" ∷ "privkey.pem" ∷ [])) (keys files) ≡ true
    → erase "privkey.pem" (erase "fullchain.pem" files) ≡ []
unfolding erase
nothing_left [] e = refl
nothing_left ((k, v) ∷ files) e =
    let (which, rest) =
      one_of_two k (all (contains ("fullchain.pem" ∷ "privkey.pem" ∷ [])) (keys files)) e in
    elim which [
      | inl is ↦ rw is (nothing_left files rest)
      | inr is ↦ rw is (nothing_left files rest)
    ]

-- A complete pair is a directory of exactly the two files.
outdated_folder :
    (generation : String) (previous : Option String) (old : String) (s : Site) (o : Option Item)
    → lookup old s.items ≡ o
    → is_outdated_at generation previous old o ≡ true
    → (files : Dict (List ℕ)) × (lookup old s.items ≡ some (folder files))
      × (contains (keys files) "fullchain.pem" ≡ true)
      × (contains (keys files) "privkey.pem" ≡ true)
      × (all (contains ("fullchain.pem" ∷ "privkey.pem" ∷ [])) (keys files) ≡ true)
outdated_folder generation previous old s none e h = absurd (cc h)
outdated_folder generation previous old s (some (link _)) e h = absurd (cc h)
outdated_folder generation previous old s (some other) e h = absurd (cc h)
outdated_folder generation previous old s (some (folder files)) e h =
    (files, e, ground (arith, h), ground (arith, h), ground (arith, h))

unlinks_file :
    (name : String) (files : Dict (List ℕ))
    → contains (keys files) name ≡ true
    → unlink_file name files ≡ ok (erase name files)
unlinks_file name files h = let (_, e) = contains-keys name files h in rw (e, unlink_file) refl

unlinks_second :
    (first name : String) (files : Dict (List ℕ))
    → first ≢ name
    → contains (keys files) name ≡ true
    → unlink_file name (erase first files) ≡ ok (erase name (erase first files))
unlinks_second first name files differ h =
    let (v, e) = contains-keys name files h in
    let there : lookup name (erase first files) ≡ some v =
      ground (arith, lookup-erase first name files, eq_iff first name, differ, e) in
    rw (there, unlink_file) refl

module _ (h : Machine) (willing : IsWilling h) (old : String) where
  abbrev At : Dict (List ℕ) → Site → Type 0
  At files s = lookup old s.items ≡ some (folder files)

  unlink_file-Works :
      (name : String) (files new : Dict (List ℕ))
      → unlink_file name files ≡ ok new
      → Works (At files) (change h (in_folder old (unlink_file name))) (λ _. At new)
  unlink_file-Works name files new e =
      Works-change h willing (At new) (in_folder old (unlink_file name)) λ s at. (
        set_item old (folder new) s,
        in_folder_found old (unlink_file name) files new s at e,
        lookup-insert_self old (folder new) s.items,
      )

  removes : (s : Site) → At [] s → rmdir old s ≡ ok (drop_item old s)
  unfolding rmdir
  removes s at = rw at refl

  removal-Works :
      (outdated : Bool) (generation : String) (previous : Option String)
      → Works
          (λ s. is_outdated generation previous old s ≡ outdated)
          (when outdated (
            change h (in_folder old (unlink_file "fullchain.pem"))
            >> (change h (in_folder old (unlink_file "privkey.pem")) >> change h (rmdir old))))
          (λ _ _. Unit {0})
  unfolding is_outdated lookup
  removal-Works false generation previous = Works-pure tt (λ s p. tt)
  removal-Works true generation previous = Works-from _ λ s0 outdated.
      let (files, at, cert, key, only) =
        outdated_folder generation previous old s0 _ refl outdated in
      let without = erase "fullchain.pem" files in
      Works-weaken (λ s. s ≡ s0) (λ _ _. Unit {0}) _
        (λ s p. ap (λ (s : Site). lookup old s.items) p ∙ at) (λ _ _ p. p)
        (Works-bind (λ _. At without) _ _
          (unlink_file-Works "fullchain.pem" files without
            (unlinks_file "fullchain.pem" files cert))
          λ _.
            Works-bind (λ _. At []) _ _
              (unlink_file-Works "privkey.pem" without [] (
                unlinks_second "fullchain.pem" "privkey.pem" files
                  (λ n. ground (arith, eq_iff "fullchain.pem" "privkey.pem")) key
                ∙ ap ok (nothing_left files only)))
              λ _.
                Works-change h willing (λ _. Unit {0}) (rmdir old)
                  (λ s at. (drop_item old s, removes s at, tt)))

  pub retire-Works :
      (generation : String) (previous : Option String)
      → Works (λ _. Unit {0}) (retire h generation previous old) (λ _ _. Unit {0})
  unfolding retire
  retire-Works generation previous =
      Works-bind (λ outdated s. is_outdated generation previous old s ≡ outdated) _ _
        (Works-gets _ (λ s p. refl)) λ outdated. removal-Works outdated generation previous
