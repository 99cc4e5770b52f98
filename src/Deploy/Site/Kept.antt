-- ===== src/Deploy/Site/Kept.antt =====
-- The system calls of Deploy/Site.antt leave the directory itself as it is, once it is made.
use aura_server.Base.{
  ℕ, ◌≡◌, refl, sym, ◌≢◌, ◌∙◌, ap, String, true, false, Option, none, some, List, [], ◌∷◌, Result,
  ok, err, ok-injective,
}
use mathlib.Core.Path.{subst}
use aura_server.Base.Dict.{Dict, lookup}
use aura_server.Deploy.Site.{
  Item, folder, link, other, Site, Root, absent, real, unreal, make_root_at, make_root, unlink,
  symlink, replace, make_folder, in_folder, rmdir, unlink_at, add_at, replace_at, put_files,
  in_folder_at, rmdir_at,
}

-- The call gives this directory again, if it succeeds.
abbrev pub Keeps : Site → Result Site → Type 0
Keeps s (ok s') = s'.root ≡ s.root
Keeps s (err e) = Unit {0}

pub Keeps-ok : (s s' : Site) (r : Result Site) → Keeps s r → r ≡ ok s' → s'.root ≡ s.root
Keeps-ok s s' (ok t) k e = ap (λ (s : Site). s.root) (sym (ok-injective e)) ∙ k
Keeps-ok s s' (err x) k e = absurd (cc e)

-- There is something at the directory's name.
abbrev pub IsThere : Site → Type 0
IsThere s = s.root ≢ absent

pub IsThere-Keeps : (s s' : Site) (r : Result Site) → Keeps s r → r ≡ ok s' → IsThere s → IsThere s'
IsThere-Keeps s s' r k e there = subst (λ r. r ≢ absent) (sym (Keeps-ok s s' r k e)) there

make_root_at-IsThere :
    (euid : ℕ) (r : Root) (s s' : Site) → s.root ≡ r → make_root_at euid r s ≡ ok s' → IsThere s'
make_root_at-IsThere euid absent s s' at e gone =
    absurd (cc (ap (λ (s : Site). s.root) (ok-injective e), gone))
make_root_at-IsThere euid (real uid mode) s s' at e gone = absurd (cc (ok-injective e, at, gone))
make_root_at-IsThere euid (unreal true) s s' at e gone = absurd (cc (ok-injective e, at, gone))
make_root_at-IsThere euid (unreal false) s s' at e gone = absurd (cc e)

pub make_root-IsThere : (euid : ℕ) (s s' : Site) → make_root euid s ≡ ok s' → IsThere s'
unfolding make_root
make_root-IsThere euid s s' e = make_root_at-IsThere euid s.root s s' refl e

module _ (name : String) (s : Site) where
  unlink_at-Keeps : (o : Option Item) → Keeps s (unlink_at name s o)
  unlink_at-Keeps none = tt
  unlink_at-Keeps (some (folder _)) = tt
  unlink_at-Keeps (some (link _)) = refl
  unlink_at-Keeps (some other) = refl

  pub unlink-Keeps : Keeps s (unlink name s)
  unfolding unlink
  unlink-Keeps = unlink_at-Keeps (lookup name s.items)

  rmdir_at-Keeps : (o : Option Item) → Keeps s (rmdir_at name s o)
  rmdir_at-Keeps none = tt
  rmdir_at-Keeps (some (folder [])) = refl
  rmdir_at-Keeps (some (folder (_ ∷ _))) = tt
  rmdir_at-Keeps (some (link _)) = tt
  rmdir_at-Keeps (some other) = tt

  pub rmdir-Keeps : Keeps s (rmdir name s)
  unfolding rmdir
  rmdir-Keeps = rmdir_at-Keeps (lookup name s.items)

  add_at-Keeps : (item : Item) (o : Option Item) → Keeps s (add_at name item s o)
  add_at-Keeps item none = refl
  add_at-Keeps item (some _) = tt

  pub symlink-Keeps : (target : String) → Keeps s (symlink name target s)
  unfolding symlink
  symlink-Keeps target = add_at-Keeps (link target) (lookup name s.items)

  pub make_folder-Keeps : Keeps s (make_folder name s)
  unfolding make_folder
  make_folder-Keeps = add_at-Keeps (folder []) (lookup name s.items)

  put_files-Keeps : (r : Result (Dict (List ℕ))) → Keeps s (put_files name s r)
  put_files-Keeps (ok files) = refl
  put_files-Keeps (err e) = tt

  module _ (f : Dict (List ℕ) → Result (Dict (List ℕ))) where
    in_folder_at-Keeps : (o : Option Item) → Keeps s (in_folder_at name f s o)
    in_folder_at-Keeps none = tt
    in_folder_at-Keeps (some (folder old)) = put_files-Keeps (f old)
    in_folder_at-Keeps (some (link _)) = tt
    in_folder_at-Keeps (some other) = tt

    pub in_folder-Keeps : Keeps s (in_folder name f s)
    unfolding in_folder
    in_folder-Keeps = in_folder_at-Keeps (lookup name s.items)

module _ (source destination : String) (s : Site) where
  replace_at-Keeps : (o p : Option Item) → Keeps s (replace_at source destination s o p)
  replace_at-Keeps none p = tt
  replace_at-Keeps (some moved) none = refl
  replace_at-Keeps (some moved) (some (folder _)) = tt
  replace_at-Keeps (some moved) (some (link _)) = refl
  replace_at-Keeps (some moved) (some other) = refl

  pub replace-Keeps : Keeps s (replace source destination s)
  unfolding replace
  replace-Keeps = replace_at-Keeps (lookup source s.items) (lookup destination s.items)
