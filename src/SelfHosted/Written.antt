-- ===== src/SelfHosted/Written.antt =====
-- What `main` of self_hosted.py leaves at the destination.
use aura_server.Base.{
  ℕ, ◌≡◌, refl, inl, inr, String, some, List, [], ◌∷◌, All, Option, Error, Result, Result-cases, ok,
  err, ◌≢◌, type_error, os_error, invalid_release, key_error, attribute_error, tar_error,
  process_error, bind-eq-ok, raise_if-then, length, ltb, value_error,
}
use mathlib.Core.Path.{subst}
use aura_server.Base.Dict.{lookup}
use aura_server.Json.{Value}
use aura_server.Script.{World, Machine, pure, throw, lift, for_each, change, ◌>>=◌, try_except}
use aura_server.Script.Rules.{
  Holds, Holds-bind, Holds-pure, Holds-weaken, Holds-throw, Holds-try_except, Seen, Ends,
}
use aura_server.Prepare.Render.{Library}
use aura_server.Prepare.Write.{
  Place, make_root, below, create, put, Exit, printed, exited, read_config,
}
use aura_server.Prepare.Parts.{Files, IsPartial, Doing, Begun}
use aura_server.Prepare.Written.{
  IsComplete, AreFiles, for_each_file-Holds, make_root-Holds, create-Holds, put-Holds,
}
use aura_server.SelfHosted.{Home}
use aura_server.SelfHosted.Render.{home_files, prepared}
use aura_server.SelfHosted.Accepted.{render_home-eq-ok}
use aura_server.SelfHosted.Write.{write_home_file, write_home, report_home, main}

home_files_distinct :
    (L : Library) (text : List ℕ → String) (home : Home)
    → All (λ (n, c). lookup n (home_files L text home) ≡ some c) (home_files L text home)
unfolding home_files lookup
home_files_distinct L text home =
    (refl, (refl, (refl, (refl, (refl, (refl, (refl, (refl, (refl, (refl, tt))))))))))

module _ (before : Place) (files : Files) where
  -- The line is printed when all files are written, and only then.
  abbrev pub Left : Exit → Place → Type 0
  Left (printed _) s = IsComplete before files s
  Left (exited _) s = IsPartial before files s

module _ (h : Machine) (before : Place) (files : Files) where
  write_home_file-Holds :
      (mode : ℕ) (done : Files) (name whole : String)
      → lookup name files ≡ some whole
      → Holds
          (IsPartial before files)
          (Doing before files done)
          (write_home_file h mode (name, whole))
          (λ _. Doing before files ((name, whole) ∷ done))
          (IsPartial before files)
  unfolding write_home_file
  write_home_file-Holds mode done name whole there =
      Holds-bind (λ _. Begun before files done name "") (change h (below (create mode name))) _
        (create-Holds h before files mode done name whole there)
        (λ _.
          Holds-bind (λ _. Begun before files done name whole)
            (change h (below (put mode name whole))) _
            (Holds-weaken _ _ _ _ (λ s d. d)
              (λ _ s (is_free, t, e, part, all_done, is, apart).
                (is_free, t, e, part, all_done, (mode, is), apart))
              (λ s d. d) (put-Holds h before files mode done name "" whole there))
            (λ _.
              Holds-weaken _ _ _ _ (λ s d. d)
                (λ _ s (is_free, t, e, part, all_done, is, apart).
                  (is_free, t, e, part, (is, all_done)))
                (λ s d. d) (put-Holds h before files 0o600 done name whole whole there)))

  write_home-Holds :
      (mode : ℕ)
      → AreFiles h before files files
      → Holds
          (IsPartial before files)
          (λ s. s ≡ before)
          (write_home h mode files)
          (Left before files)
          (IsPartial before files)
  unfolding write_home
  write_home-Holds mode distinct =
      Holds-bind (λ _. Doing before files []) (change h make_root) _
        (make_root-Holds h before files)
        (λ _.
          Holds-bind (λ _. IsComplete before files) (for_each (write_home_file h mode) files) _
            (Holds-weaken _ _ _ _ (λ s d. d)
              (λ _ s (is_free, t, e, part, _, all_written). (is_free, t, e, all_written, part))
              (λ s d. d)
              (for_each_file-Holds h before files (write_home_file h mode)
                (write_home_file-Holds mode) [] files distinct))
            (λ _. Holds-pure _ (λ s d. d)))

  report_home-Holds :
      (e : Error)
      → Holds
          (IsPartial before files)
          (IsPartial before files)
          (report_home e)
          (Left before files)
          (IsPartial before files)
  report_home-Holds key_error = Holds-pure _ (λ s p. p)
  report_home-Holds (invalid_release _) = Holds-pure _ (λ s p. p)
  report_home-Holds (value_error _) = Holds-pure _ (λ s p. p)
  report_home-Holds (os_error _) = Holds-pure _ (λ s p. p)
  report_home-Holds type_error = Holds-pure _ (λ s p. p)
  report_home-Holds attribute_error = Holds-throw _ (λ s p. p)
  report_home-Holds tar_error = Holds-throw _ (λ s p. p)
  report_home-Holds process_error = Holds-throw _ (λ s p. p)

-- A report changes nothing, and is not the line that ends well.
report_home_quiet :
    (e : Error) (w : World Place)
    → ((report_home e w).1 ≡ w) × ((line : String) → (report_home e w).0 ≢ ok (printed line))
unfolding pure throw
report_home_quiet key_error w = (refl, λ line f. absurd (cc f))
report_home_quiet (invalid_release _) w = (refl, λ line f. absurd (cc f))
report_home_quiet (value_error _) w = (refl, λ line f. absurd (cc f))
report_home_quiet (os_error _) w = (refl, λ line f. absurd (cc f))
report_home_quiet type_error w = (refl, λ line f. absurd (cc f))
report_home_quiet attribute_error w = (refl, λ line f. absurd (cc f))
report_home_quiet tar_error w = (refl, λ line f. absurd (cc f))
report_home_quiet process_error w = (refl, λ line f. absurd (cc f))

prepared_distinct :
    (L : Library) (text : List ℕ → String) (loads : List ℕ → Option Value)
    (source : Result (List ℕ)) (files : Files)
    → prepared L text loads source ≡ ok files
    → All (λ (n, c). lookup n files ≡ some c) files
unfolding prepared
prepared_distinct L text loads source files h =
    let (raw, _, h1) = bind-eq-ok source _ h in
    let (_, h2) = raise_if-then (ltb 4096 (length raw)) _ _ h1 in
    let (config, _, h3) = bind-eq-ok (read_config loads raw) _ h2 in
    let (home, _, same) = (render_home-eq-ok L text config files).0 h3 in
    subst (λ fs. All (λ (n, c). lookup n fs ≡ some c) fs) same (home_files_distinct L text home)

module _ (L : Library) (text : List ℕ → String) (loads : List ℕ → Option Value)
    (source : Result (List ℕ)) (before : Place) (commands : List (List String)) where
  abbrev pub outset : World Place
  outset = record { now = before; past = []; commands = commands }

  pub data IsPrepared (r : Result Exit × World Place) : Type 0 where
    refused :
        (e : Error)
        → prepared L text loads source ≡ err e
        → r.1 ≡ outset
        → ((line : String) → r.0 ≢ ok (printed line))
        → IsPrepared r
    written :
        (files : Files)
        → prepared L text loads source ≡ ok files
        → Seen (IsPartial before files) r.1
        → Ends (Left before files) (IsPartial before files) r
        → IsPrepared r

-- `main` of self_hosted.py: where the configuration is refused, nothing changes and the line that ends
-- well is not printed; and where files are rendered, whatever calls the operating system refuses, in each
-- state the destination is as it was, or it was free and is a directory whose files are among those
-- rendered, each empty or with its whole text. That line is printed only when each of
-- the files stands there with its whole text and mode 0o600, and no other file does.
pub main-IsPrepared :
    (h : Machine) (mode : ℕ) (L : Library) (text : List ℕ → String) (loads : List ℕ → Option Value)
    (source : Result (List ℕ)) (before : Place) (commands : List (List String))
    → IsPrepared L text loads source before commands
        (main h mode L text loads source (outset L text loads source before commands))
unfolding main try_except lift ◌>>=◌
main-IsPrepared h mode L text loads source before commands =
    elim (Result-cases (prepared L text loads source)) [
      | inr (e, f) ↦
          let (same, quiet) = report_home_quiet e (outset L text loads source before commands) in
          rw f (refused e f same quiet)
      | inl (files, f) ↦
          let (seen, ends) =
            (Holds-try_except (IsPartial before files) (write_home h mode files) report_home
                (write_home-Holds h before files mode
                  (prepared_distinct L text loads source files f))
                (report_home-Holds h before files)).at
              (outset L text loads source before commands) (inl refl, tt) refl in
          rw f (written files f seen ends)
    ]
