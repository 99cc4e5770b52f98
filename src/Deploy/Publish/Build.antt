-- ===== src/Deploy/Publish/Build.antt =====
-- The new generation of ip_deploy.py's `publish`, made beside what is served.
use aura_server.Base.{
  ℕ, ◌≡◌, sym, ◌≢◌, String, none, some, List, [], Result, ok, ok-injective, arith,
}
use aura_server.Base.Dict.{Dict, lookup, insert, lookup-insert, lookup-insert_self}
use aura_server.Script.{Machine, lift, change}
use aura_server.Script.Rules.{Holds, Holds-bind, Holds-lift, Holds-change}
use aura_server.Deploy.Site.{Site, Item, folder, make_folder, in_folder, create_file, write_file}
use aura_server.Deploy.Site.Changes.{make_folder-items, in_folder-items}
use aura_server.Deploy.Publish.{copy_into}
use aura_server.Deploy.Publish.Point.{sync-keeps}
use mathlib.Core.Path.{subst}
use text.Mathlib.TextEquality.{eq_iff}

-- The entries of `d`, but for the generation.
abbrev pub Beside : Dict Item → String → Site → Type 0
Beside d generation s = (j : String) → j ≢ generation → lookup j s.items ≡ lookup j d

-- The same, and the generation is a directory whose files are as `F` says.
abbrev pub Ready : Dict Item → String → (Dict (List ℕ) → Type 0) → Site → Type 0
Ready d generation F s =
    Beside d generation s
    × (files : Dict (List ℕ)) × (lookup generation s.items ≡ some (folder files))
    × F files

-- The file holds what the source gave.
abbrev pub HasCopy : String → Result (List ℕ) → Dict (List ℕ) → Type 0
HasCopy name source files =
    (bytes : List ℕ) × (source ≡ ok bytes) × (lookup name files ≡ some bytes)

-- The file is new or rewritten, and the other files are as they were when `F` held.
abbrev pub Created : (Dict (List ℕ) → Type 0) → String → Dict (List ℕ) → Type 0
Created F name files =
    (old : Dict (List ℕ)) × F old × ((j : String) → j ≢ name → lookup j files ≡ lookup j old)

abbrev pub Added : (Dict (List ℕ) → Type 0) → String → Result (List ℕ) → Dict (List ℕ) → Type 0
Added F name source files = HasCopy name source files × Created F name files

create_file-eq-ok :
    (name : String) (old new : Dict (List ℕ))
    → create_file name old ≡ ok new
    → new ≡ insert name [] old
create_file-eq-ok name old new h = ground arith

module _ (h : Machine) (d : Dict Item) (generation : String) (sight exc : Site → Type 0) where
  Ready-make_folder :
      (s s' : Site)
      → s.items ≡ d
      → make_folder generation s ≡ ok s'
      → (lookup generation d ≡ none) × Ready d generation (λ _. Unit {0}) s'
  Ready-make_folder s s' b e =
      let (free, items) = make_folder-items generation s s' e in
      (
        ground (arith, free, b),
        (
          λ j n. ground (
            arith,
            items,
            b,
            lookup-insert generation j (folder []) s.items,
            eq_iff generation j,
          ),
          [],
          ground (arith, items, lookup-insert_self generation (folder []) s.items),
          tt,
        ),
      )

  -- A directory that is made was not there.
  pub make_folder-Holds :
      ((s : Site) → s.items ≡ d → exc s)
      → (lookup generation d ≡ none → (s : Site) → Beside d generation s → sight s)
      → Holds sight
          (λ s. s.items ≡ d)
          (change h (make_folder generation))
          (λ _ s. (lookup generation d ≡ none) × Ready d generation (λ _. Unit {0}) s)
          exc
  make_folder-Holds leave see =
      Holds-change h (make_folder generation)
        (λ s s' b e. let r = Ready-make_folder s s' b e in (see r.0 s' r.1.0, r)) leave

  module _ (see : (s : Site) → Beside d generation s → sight s × exc s) where
    module _ (F G : Dict (List ℕ) → Type 0) (f : Dict (List ℕ) → Result (Dict (List ℕ))) where
      Ready-in_folder :
          ((old new : Dict (List ℕ)) → F old → f old ≡ ok new → G new)
          → (s s' : Site) → Ready d generation F s
          → in_folder generation f s ≡ ok s'
          → Ready d generation G s'
      Ready-in_folder step s s' (b, files, at, good) e =
          let (old, new, there, made, items) = in_folder-items generation s s' f e in
          let same : old ≡ files = cc in
          (
            λ j n. ground (
              arith,
              items,
              lookup-insert generation j (folder new) s.items,
              eq_iff generation j,
              b j n,
            ),
            new,
            ground (arith, items, lookup-insert_self generation (folder new) s.items),
            step old new (subst F (sym same) good) made,
          )

      in_folder-Holds :
          ((old new : Dict (List ℕ)) → F old → f old ≡ ok new → G new)
          → Holds sight
              (Ready d generation F)
              (change h (in_folder generation f))
              (λ _. Ready d generation G)
              exc
      in_folder-Holds step =
          Holds-change h (in_folder generation f)
            (λ s s' b e. let r = Ready-in_folder step s s' b e in ((see s' r.0).0, r))
            (λ s b. (see s b.0).1)

    module _ (F : Dict (List ℕ) → Type 0) (name : String) (source : Result (List ℕ)) where
      Created-create_file :
          (G : Dict (List ℕ) → Type 0) (old new : Dict (List ℕ))
          → G old
          → create_file name old ≡ ok new
          → Created G name new
      Created-create_file G old new p e = (
        old,
        p,
        λ j n.
            ground
              (arith, create_file-eq-ok name old new e, lookup-insert name j [] old, eq_iff name j),
      )

      Added-write_file :
          (bytes : List ℕ) (old new : Dict (List ℕ))
          → Created (λ files. F files × (source ≡ ok bytes)) name old
          → write_file name bytes old ≡ ok new
          → Added F name source new
      Added-write_file bytes old new (older, (p, given), same) e =
          let made : new ≡ insert name bytes old = sym (ok-injective e) in
          (
            (bytes, given, ground (arith, made, lookup-insert_self name bytes old)),
            (
              older,
              p,
              λ j n. ground (arith, made, lookup-insert name j bytes old, eq_iff name j, same j n),
            ),
          )

      pub copy_into-Holds :
          Holds sight
            (Ready d generation F)
            (copy_into h generation name source)
            (λ _. Ready d generation (Added F name source))
            exc
      unfolding copy_into
      copy_into-Holds =
          Holds-bind (λ bytes. Ready d generation (λ files. F files × (source ≡ ok bytes)))
            (lift source) _
            (Holds-lift source (λ bytes s e (b, files, at, p). (b, files, at, (p, e)))
              (λ s r. (see s r.0).1))
            λ bytes.
              let F' = λ (files : Dict (List ℕ)). F files × (source ≡ ok bytes) in
              Holds-bind (λ _. Ready d generation (Created F' name)) _ _
                (in_folder-Holds F' (Created F' name) (create_file name) (Created-create_file F'))
                λ _.
                  Holds-bind (λ _. Ready d generation (Created F' name)) _ _
                    (sync-keeps h sight exc (Ready d generation (Created F' name))
                      (λ s r. (see s r.0).0) (λ s r. (see s r.0).1))
                    λ _.
                      Holds-bind (λ _. Ready d generation (Added F name source)) _ _
                        (in_folder-Holds (Created F' name) (Added F name source)
                          (write_file name bytes) (Added-write_file bytes))
                        λ _.
                          sync-keeps h sight exc (Ready d generation (Added F name source))
                            (λ s r. (see s r.0).0) (λ s r. (see s r.0).1)
