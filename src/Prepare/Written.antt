-- ===== src/Prepare/Written.antt =====
-- What `write` of prepare.py leaves at the destination.
use aura_server.Base.{
  ℕ, ◌≡◌, refl, ap, sym, ◌∙◌, inl, inr, String, false, some, List, [], ◌∷◌, string_eq, contains,
  All, ok, ok-injective,
}
use mathlib.Core.Path.{subst}
use aura_server.Base.Dict.{Dict, keys, lookup, insert, lookup-insert_self}
use aura_server.Json.{Value}
use aura_server.Release.Disk.Parents.{parents, mkdirs-keeps}
use aura_server.Script.{Machine, Script, lift, for_each, change}
use aura_server.Script.Rules.{
  Holds, Holds-bind, Holds-pure, Holds-lift, Holds-change, Holds-weaken, Holds-assume, Seen, Ends,
}
use aura_server.Prepare.Render.{Library, render}
use aura_server.Prepare.Write.{
  Item, folder, file, Place, free, made, is_folder, make_root, below, make_parent, create, put,
  write_file, write,
}
use aura_server.Prepare.Parts.{
  Files, IsWritten, IsPart, IsPartial, Doing, Begun, IsWritten-keeps, IsWritten-insert, not_written,
  IsPart-insert, IsPart-mkdirs, below-eq-ok, create-eq-ok, root_made,
}
use aura_server.Prepare.Render.{Plan, role_files, plan_files}
use aura_server.Prepare.Planned.{render-eq-ok}

module _ (h : Machine) (before : Place) (files : Files) where
  pub IsPartial-of_Doing :
      (done : Files) (s : Place) → Doing before files done s → IsPartial before files s
  IsPartial-of_Doing done s (is_free, t, e, part, _) = inr (is_free, t, e, part)

  IsPartial-of_Begun :
      (done : Files) (name text : String) (s : Place)
      → Begun before files done name text s
      → IsPartial before files s
  IsPartial-of_Begun done name text s (is_free, t, e, part, _, _, _) = inr (is_free, t, e, part)

  pub make_root-Holds :
      Holds
        (IsPartial before files)
        (λ s. s ≡ before)
        (change h make_root)
        (λ _. Doing before files [])
        (IsPartial before files)
  make_root-Holds =
      Holds-change h make_root
        (λ s s' e g. let d = root_made files s s' before e g in (IsPartial-of_Doing [] s' d, d))
        (λ s e. inl e)

  make_parent-Holds :
      (done : Files) (name : String)
      → Holds
          (IsPartial before files)
          (Doing before files done)
          (change h (below (make_parent name)))
          (λ _. Doing before files done)
          (IsPartial before files)
  make_parent-Holds done name =
      Holds-change h (below (make_parent name))
        (λ s s' (is_free, t, e, part, all_done) g.
          let (t', m, e') = below-eq-ok (make_parent name) t s s' e g in
          let part' = IsPart-mkdirs files (parents name) t t' m part in
          let all' =
            IsWritten-keeps t t' done
              (λ k v. mkdirs-keeps is_folder folder (parents name) t t' k v m) all_done in
          (inr (is_free, t', e', part'), (is_free, t', e', part', all')))
        (IsPartial-of_Doing done)

  pub create-Holds :
      (mode : ℕ) (done : Files) (name whole : String)
      → lookup name files ≡ some whole
      → Holds
          (IsPartial before files)
          (Doing before files done)
          (change h (below (create mode name)))
          (λ _. Begun before files done name "")
          (IsPartial before files)
  create-Holds mode done name whole there =
      Holds-change h (below (create mode name))
        (λ s s' (is_free, t, e, part, all_done) g.
          let (t', m, e') = below-eq-ok (create mode name) t s s' e g in
          let (new, is) = create-eq-ok mode name t t' m in
          let apart = not_written t done name new all_done in
          let part' = IsPart-insert files t name mode "" whole there (inl refl) part in
          let all' = IsWritten-insert t done name (file mode "") apart all_done in
          let b : Begun before files done name "" s' = (
            is_free,
            insert name (file mode "") t,
            e' ∙ ap made is,
            part',
            all',
            (mode, lookup-insert_self name (file mode "") t),
            apart,
          ) in
          (IsPartial-of_Begun done name "" s' b, b))
        (IsPartial-of_Doing done)

  pub put-Holds :
      (mode : ℕ) (done : Files) (name text whole : String)
      → lookup name files ≡ some whole
      → Holds
          (IsPartial before files)
          (Begun before files done name text)
          (change h (below (put mode name whole)))
          (λ _ s.
            (is_free : before ≡ free) × (t : Dict Item) × (s ≡ made t)
            × IsPart files t
            × All (IsWritten t) done
            × (lookup name t ≡ some (file mode whole))
            × (contains (keys done) name ≡ false))
          (IsPartial before files)
  put-Holds mode done name text whole there =
      Holds-change h (below (put mode name whole))
        (λ s s' (is_free, t, e, part, all_done, _, apart) g.
          let (t', m, e') = below-eq-ok (put mode name whole) t s s' e g in
          let is = sym (ok-injective m) in
          let u = insert name (file mode whole) t in
          let e'' : s' ≡ made u = e' ∙ ap made is in
          let part' = IsPart-insert files t name mode whole whole there (inr refl) part in
          let all' = IsWritten-insert t done name (file mode whole) apart all_done in
          (
            inr (is_free, u, e'', part'),
            (is_free, u, e'', part', all', lookup-insert_self name (file mode whole) t, apart),
          ))
        (IsPartial-of_Begun done name text)

  -- One file more, the latest first.
  write_file-Holds :
      (mode : ℕ) (done : Files) (name whole : String)
      → lookup name files ≡ some whole
      → Holds
          (IsPartial before files)
          (Doing before files done)
          (write_file h mode (name, whole))
          (λ _. Doing before files ((name, whole) ∷ done))
          (IsPartial before files)
  unfolding write_file
  write_file-Holds mode done name whole there =
      Holds-bind (λ _. Doing before files done) (change h (below (make_parent name))) _
        (make_parent-Holds done name)
        (λ _.
          Holds-bind (λ _. Begun before files done name "") (change h (below (create mode name))) _
            (create-Holds mode done name whole there)
            (λ _.
              Holds-bind (λ _. Begun before files done name whole)
                (change h (below (put mode name whole))) _
                (Holds-weaken _ _ _ _ (λ s d. d)
                  (λ _ s (is_free, t, e, part, all_done, is, apart).
                    (is_free, t, e, part, all_done, (mode, is), apart))
                  (λ s d. d) (put-Holds mode done name "" whole there))
                (λ _.
                  Holds-weaken _ _ _ _ (λ s d. d)
                    (λ _ s (is_free, t, e, part, all_done, is, apart).
                      (is_free, t, e, part, (is, all_done)))
                    (λ s d. d) (put-Holds 0o600 done name whole whole there))))

  -- Each of the rest is one of the files.
  abbrev pub AreFiles : Files → Type 0
  AreFiles = All (λ (n, c). lookup n files ≡ some c)

  -- What writing one file keeps, writing them all keeps.
  pub for_each_file-Holds :
      (body : String × String → Script Place (Unit {0}))
      → ((done : Files) (name whole : String)
          → lookup name files ≡ some whole
          → Holds
              (IsPartial before files)
              (Doing before files done)
              (body (name, whole))
              (λ _. Doing before files ((name, whole) ∷ done))
              (IsPartial before files))
      → (done rest : Files) → AreFiles rest
      → Holds
          (IsPartial before files)
          (Doing before files done)
          (for_each body rest)
          (λ _ s.
            (is_free : before ≡ free) × (t : Dict Item) × (s ≡ made t)
            × IsPart files t
            × All (IsWritten t) done
            × All (IsWritten t) rest)
          (IsPartial before files)
  unfolding for_each
  for_each_file-Holds body k done [] a =
      Holds-pure tt (λ s (is_free, t, e, part, all_done). (is_free, t, e, part, all_done, tt))
  for_each_file-Holds body k done ((name, whole) ∷ rest) (there, a) =
      Holds-bind (λ _. Doing before files ((name, whole) ∷ done)) (body (name, whole)) _
        (k done name whole there)
        (λ _.
          Holds-weaken _ _ _ _ (λ s d. d)
            (λ _ s (is_free, t, e, part, (is, all_done), all_rest).
              (is_free, t, e, part, all_done, (is, all_rest)))
            (λ s d. d) (for_each_file-Holds body k ((name, whole) ∷ done) rest a))

-- No name comes twice.
plan_files_distinct :
    (L : Library) (p : Plan) → All (λ (n, c). lookup n (plan_files L p) ≡ some c) (plan_files L p)
unfolding plan_files role_files lookup
plan_files_distinct L p = (refl, (refl, (refl, (refl, (refl, (refl, (refl, (refl, (refl, tt)))))))))

-- The destination was free, and holds the files and no other.
abbrev pub IsComplete : Place → Files → Place → Type 0
IsComplete before files s =
    (before ≡ free) × (t : Dict Item) × (s ≡ made t) × All (IsWritten t) files × IsPart files t

write-Holds :
    (h : Machine) (mode : ℕ) (L : Library) (config : Dict Value) (before : Place) (files : Files)
    → render L config ≡ ok files
    → Holds
        (IsPartial before files)
        (λ s. s ≡ before)
        (write h mode L config)
        (λ _. IsComplete before files)
        (IsPartial before files)
unfolding write
write-Holds h mode L config before files given =
    let (p, _, _, same) = (render-eq-ok L config files).0 given in
    let distinct =
      subst (λ fs. All (λ (n, c). lookup n fs ≡ some c) fs) same (plan_files_distinct L p) in
    Holds-bind (λ r s. (r ≡ files) × (s ≡ before)) (lift (render L config)) _
      (Holds-lift (render L config) (λ r s e b. (ok-injective (sym e ∙ given), b)) (λ s b. inl b))
      (λ r. Holds-assume _ (r ≡ files) (λ is. rw is (
        Holds-bind (λ _. Doing before files []) (change h make_root) _
          (make_root-Holds h before files)
          (λ _.
            Holds-weaken _ _ _ _ (λ s d. d)
              (λ _ s (is_free, t, e, part, _, all_written). (is_free, t, e, all_written, part))
              (λ s d. d)
              (for_each_file-Holds h before files (write_file h mode)
                (write_file-Holds h before files mode) [] files distinct)))))

-- Whatever calls the operating system refuses: in each state that `write` passes through the destination is
-- as it was, or it was free and is a directory whose files are among those that `render` gives, each empty or with its whole text. Where
-- `write` returns, the destination was free, and each of the files stands in the directory with its whole text and mode
-- 0o600, and no other file does.
pub write-IsWritten :
    (h : Machine) (mode : ℕ) (L : Library) (config : Dict Value) (before : Place)
    (commands : List (List String)) {files : Files}
    → render L config ≡ ok files
    → let run = write h mode L config (record { now = before; past = []; commands = commands }) in
      Seen (IsPartial before files) run.1
      × Ends (λ (_ : Unit {0}). IsComplete before files) (IsPartial before files) run
write-IsWritten h mode L config before commands {files} given =
    (write-Holds h mode L config before files given).at
      (record { now = before; past = []; commands = commands }) (inl refl, tt) refl
