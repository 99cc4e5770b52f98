-- ===== src/Prepare/Caught.antt =====
-- The command of prepare.py raises nothing but what it catches.
use aura_server.Base.{
  ℕ, refl, inl, inr, String, Bool-cases, Option, Option-cases, none, some, List, [], ◌∷◌, length,
  Result, ok, err,
}
use aura_server.Base.Dict.{Dict, lookup}
use aura_server.Json.{Value}
use aura_server.Release.Disk.Parents.{parents, mkdirs}
use aura_server.Script.{
  World, Machine, Script, pure, lift, continue, ◌>>=◌, for_each, change, applied,
}
use aura_server.Prepare.Render.{Library, render}
use aura_server.Prepare.Write.{
  Item, folder, Place, free, taken, made, is_folder, make_root, made_of, below, make_parent,
  create_by, create, put, write_file, write,
}
use aura_server.Prepare.Parts.{Files}
use aura_server.Prepare.Exits.{Caught, render-Caught}

module _ {A : Type 0} where
  -- From every world the script returns, or raises an error that is caught.
  abbrev Catches : Script Place A → Type 0
  Catches m = (w : World Place) → Caught (m w).0

continue-Caught :
    {A B : Type 0} (f : A → Script Place B) (r : Result A) (w : World Place)
    → Caught r
    → ((a : A) → Catches (f a))
    → Caught (continue f r w).0
continue-Caught f (ok a) w h k = k a w
continue-Caught f (err e) w h k = h

Catches-bind :
    {A B : Type 0} (m : Script Place A) (f : A → Script Place B)
    → Catches m
    → ((a : A) → Catches (f a))
    → Catches (m >>= f)
unfolding ◌>>=◌
Catches-bind m f h k w = continue-Caught f (m w).0 (m w).1 (h w) k

applied-Caught : (r : Result Place) (w : World Place) → Caught r → Caught (applied r w).0
applied-Caught (ok s) w h = tt
applied-Caught (err e) w h = h

Catches-change :
    (h : Machine) (f : Place → Result Place) → ((s : Place) → Caught (f s)) → Catches (change h f)
unfolding change
Catches-change h f c w = elim (Bool-cases (h.refuses (length w.past))) [
  | inl e ↦ rw e refl
  | inr e ↦ rw e (applied-Caught (f w.now) w (c w.now))
]

make_root-Caught : (s : Place) → Caught (make_root s)
make_root-Caught free = tt
make_root-Caught taken = refl
make_root-Caught (made t) = refl

made_of-Caught : (r : Result (Dict Item)) → Caught r → Caught (made_of r)
made_of-Caught (ok t) h = tt
made_of-Caught (err e) h = h

below-Caught :
    (f : Dict Item → Result (Dict Item))
    → ((t : Dict Item) → Caught (f t))
    → (s : Place) → Caught (below f s)
below-Caught f c free = refl
below-Caught f c taken = refl
below-Caught f c (made t) = made_of-Caught (f t) (c t)

mkdirs-Caught : (ps : List String) (t : Dict Item) → Caught (mkdirs is_folder folder ps t)
unfolding mkdirs
mkdirs-Caught [] t = tt
mkdirs-Caught (p ∷ ps) t = elim (Option-cases (lookup p t)) [
  | inl e ↦ rw (e, mkdirs) (mkdirs-Caught ps _)
  | inr (v, e) ↦ elim (Bool-cases (is_folder v)) [
    | inl f ↦ rw (e, mkdirs, f) (mkdirs-Caught ps t)
    | inr f ↦ rw (e, mkdirs, f) refl
  ]
]

create_by-Caught :
    (mode : ℕ) (name : String) (t : Dict Item) (o : Option Item) → Caught (create_by mode name t o)
create_by-Caught mode name t none = tt
create_by-Caught mode name t (some v) = refl

write_file-Catches : (h : Machine) (mode : ℕ) (f : String × String) → Catches (write_file h mode f)
unfolding write_file
write_file-Catches h mode (name, content) =
    Catches-bind _ _
      (Catches-change h (below (make_parent name)) (below-Caught _ (mkdirs-Caught (parents name))))
      (λ _.
        Catches-bind _ _
          (Catches-change h (below (create mode name))
            (below-Caught _ (λ t. create_by-Caught mode name t (lookup name t))))
          (λ _.
            Catches-bind _ _
              (Catches-change h (below (put mode name content))
                (below-Caught (put mode name content) (λ _. tt)))
              (λ _.
                Catches-change h (below (put 0o600 name content))
                  (below-Caught (put 0o600 name content) (λ _. tt)))))

write_files-Catches :
    (h : Machine) (mode : ℕ) (fs : Files) → Catches (for_each (write_file h mode) fs)
unfolding for_each pure
write_files-Catches h mode [] = λ w. tt
write_files-Catches h mode (f ∷ fs) =
    Catches-bind (write_file h mode f) _ (write_file-Catches h mode f)
      (λ _. write_files-Catches h mode fs)

pub write-Catches :
    (h : Machine) (mode : ℕ) (L : Library) (config : Dict Value) → Catches (write h mode L config)
unfolding write lift
write-Catches h mode L config =
    Catches-bind (lift (render L config)) _ (λ w. render-Caught L config)
      (λ files.
        Catches-bind (change h make_root) _ (Catches-change h make_root make_root-Caught)
          (λ _. write_files-Catches h mode files))
