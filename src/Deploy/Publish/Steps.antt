-- ===== src/Deploy/Publish/Steps.antt =====
-- The link and the new generation of ip_deploy.py's `publish`, where nothing is refused.
use aura_server.Base.{
  ℕ, ◌≡◌, ◌≢◌, refl, ap, String, Bool, true, false, Option, none, some, List, [], string_eq, Result,
  ok, arith,
}
use mathlib.Core.Path.{subst}
use text.Mathlib.TextEquality.{eq_iff}
use aura_server.Base.Dict.{Dict, lookup, insert, lookup-insert, lookup-insert_self, lookup-erase}
use aura_server.Script.{Machine, when, change}
use aura_server.Script.Total.{
  IsWilling, Works, Works-bind, Works-pure, Works-gets, Works-lift, Works-assume, Works-change,
}
use aura_server.Deploy.Site.{
  Site, Item, folder, link, other, unlink, symlink, replace, in_folder, create_file, write_file,
  set_item, drop_item,
}
use aura_server.Deploy.Publish.{sync, point, is_present, copy_into}

-- No directory stands in the way of a link.
abbrev pub IsFlat : Option Item → Type 0
IsFlat (some (folder _)) = ⊥
IsFlat _ = Unit {0}

-- The two places of links may be taken over.
abbrev pub IsClear : Site → Type 0
IsClear s = IsFlat (lookup "current" s.items) × IsFlat (lookup ".current-next" s.items)

unlinks :
    (name : String) (s : Site) (o : Option Item)
    → lookup name s.items ≡ o
    → IsFlat o
    → is_present name s ≡ true
    → unlink name s ≡ ok (drop_item name s)
unfolding unlink
unlinks name s none e flat here = absurd (cc (rw (e, is_present) at here))
unlinks name s (some (folder _)) e flat here = absurd flat
unlinks name s (some (link _)) e flat here = rw e refl
unlinks name s (some other) e flat here = rw e refl

absent_of :
    (name : String) (s : Site) (o : Option Item)
    → lookup name s.items ≡ o
    → is_present name s ≡ false
    → lookup name s.items ≡ none
absent_of name s none e here = e
absent_of name s (some i) e here = absurd (cc (rw (e, is_present) at here))

replaces :
    (moved : Item) (s : Site) (o : Option Item)
    → lookup ".current-next" s.items ≡ some moved
    → lookup "current" s.items ≡ o
    → IsFlat o
    → replace ".current-next" "current" s
      ≡ ok (set_item "current" moved (drop_item ".current-next" s))
unfolding replace
replaces moved s none e f flat = rw (e, f) refl
replaces moved s (some (folder _)) e f flat = absurd flat
replaces moved s (some (link _)) e f flat = rw (e, f) refl
replaces moved s (some other) e f flat = rw (e, f) refl

-- A call on the files of a directory that is there.
pub in_folder_found :
    (name : String) (f : Dict (List ℕ) → Result (Dict (List ℕ))) (old new : Dict (List ℕ))
    (s : Site)
    → lookup name s.items ≡ some (folder old)
    → f old ≡ ok new
    → in_folder name f s ≡ ok (set_item name (folder new) s)
unfolding in_folder
in_folder_found name f old new s at e = rw (at, e) refl

-- The directory of the new generation has these files.
abbrev pub Holding : String → Dict (List ℕ) → Site → Type 0
Holding generation files s = (lookup generation s.items ≡ some (folder files)) × IsClear s

pub folder_set :
    (generation : String) (files : Dict (List ℕ)) (s : Site)
    → generation ≢ "current"
    → generation ≢ ".current-next"
    → IsClear s
    → Holding generation files (set_item generation (folder files) s)
folder_set generation files s not_current not_next (flat, flat') = (
  lookup-insert_self generation (folder files) s.items,
  (
    subst IsFlat
        (ground (
          arith,
          lookup-insert generation "current" (folder files) s.items,
          eq_iff generation "current",
          not_current,
        ))
        flat,
    subst IsFlat
        (ground (
          arith,
          lookup-insert generation ".current-next" (folder files) s.items,
          eq_iff generation ".current-next",
          not_next,
        ))
        flat',
  ),
)

module _ (h : Machine) (willing : IsWilling h) where
  pub sync-Works : (P : Site → Type 0) → Works P (sync h) (λ _. P)
  unfolding sync
  sync-Works P = Works-change h willing P ok (λ s p. (s, refl, p))

  -- The place of the new link is free.
  abbrev Free : Site → Type 0
  Free s = IsFlat (lookup "current" s.items) × (lookup ".current-next" s.items ≡ none)

  abbrev Linked : String → Site → Type 0
  Linked name s =
      IsFlat (lookup "current" s.items) × (lookup ".current-next" s.items ≡ some (link name))

  unlink_stale-Works :
      (stale : Bool)
      → Works
          (λ s. (is_present ".current-next" s ≡ stale) × IsClear s)
          (when stale (change h (unlink ".current-next")))
          (λ _. Free)
  unlink_stale-Works true =
      Works-change h willing Free (unlink ".current-next") λ s (here, (flat, flat')). (
        drop_item ".current-next" s,
        unlinks ".current-next" s _ refl flat' here,
        (
          rw (lookup-erase ".current-next" "current" s.items) flat,
          ground (arith, lookup-erase ".current-next" ".current-next" s.items),
        ),
      )
  unlink_stale-Works false =
      Works-pure tt (λ s (here, (flat, _)). (flat, absent_of ".current-next" s _ refl here))

  pub point-Works : (name : String) → Works IsClear (point h name) (λ _ _. Unit {0})
  unfolding point
  point-Works name =
      Works-bind (λ stale s. (is_present ".current-next" s ≡ stale) × IsClear s) _ _
        (Works-gets _ (λ s p. (refl, p)))
        λ stale.
          Works-bind (λ _. Free) _ _ (unlink_stale-Works stale)
            λ _.
              Works-bind (λ _. Linked name) _ _
                (Works-change h willing (Linked name) (symlink ".current-next" name)
                  λ s (flat, free). (
                    set_item ".current-next" (link name) s,
                    unfold symlink in rw free refl,
                    (
                      rw (lookup-insert ".current-next" "current" (link name) s.items) flat,
                      lookup-insert_self ".current-next" (link name) s.items,
                    ),
                  ))
                λ _.
                  Works-bind (λ _ _. Unit {0}) _ _
                    (Works-change h willing (λ _. Unit {0}) (replace ".current-next" "current")
                      λ s (flat, linked). (_, replaces (link name) s _ linked refl flat, tt))
                    λ _. sync-Works (λ _. Unit {0})

  module _ (generation : String) (not_current : generation ≢ "current")
      (not_next : generation ≢ ".current-next") where
    in_folder-Works :
        (f : Dict (List ℕ) → Result (Dict (List ℕ))) (old new : Dict (List ℕ))
        → f old ≡ ok new
        → Works
            (Holding generation old)
            (change h (in_folder generation f))
            (λ _. Holding generation new)
    in_folder-Works f old new e =
        Works-change h willing (Holding generation new) (in_folder generation f) λ s (at, clear). (
          set_item generation (folder new) s,
          in_folder_found generation f old new s at e,
          folder_set generation new s not_current not_next clear,
        )

    pub copy_into-Works :
        (name : String) (bytes : List ℕ) (old : Dict (List ℕ))
        → lookup name old ≡ none
        → Works
            (Holding generation old)
            (copy_into h generation name (ok bytes))
            (λ _. Holding generation (insert name bytes (insert name [] old)))
    unfolding copy_into
    copy_into-Works name bytes old free =
        Works-bind (λ b s. (b ≡ bytes) × Holding generation old s) _ _
          (Works-lift (ok bytes) bytes refl (λ s p. (refl, p)))
          λ b. Works-assume _ (b ≡ bytes) λ same.
            Works-bind (λ _. Holding generation (insert name [] old)) _ _
              (in_folder-Works (create_file name) old (insert name [] old)
                (rw (free, create_file) refl))
              λ _.
                Works-bind (λ _. Holding generation (insert name [] old)) _ _
                  (sync-Works (Holding generation (insert name [] old)))
                  λ _.
                    Works-bind (λ _. Holding generation (insert name bytes (insert name [] old))) _
                      _
                      (in_folder-Works (write_file name b) _ _
                        (ap (λ b. ok (insert name b (insert name [] old))) same))
                      λ _. sync-Works _
