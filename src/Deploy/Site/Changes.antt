-- ===== src/Deploy/Site/Changes.antt =====
-- What a system call of Deploy/Site.antt that succeeds has found, and what it has written.
use aura_server.Base.{
  ℕ, ◌≡◌, refl, sym, ap, ◌∙◌, String, true, false, Option, none, some, List, [], ◌∷◌, Result, ok,
  err, ok-injective,
}
use aura_server.Base.Dict.{Dict, lookup, insert, erase}
use aura_server.Deploy.Site.{
  Item, folder, link, other, Site, Root, absent, real, unreal, make_root_at, make_root, unlink,
  symlink, replace, make_folder, in_folder, rmdir, unlink_at, add_at, replace_at, put_files,
  in_folder_at, rmdir_at,
}

make_root_at-items :
    (euid : ℕ) (r : Root) (s s' : Site)
    → (r ≡ absent → s.items ≡ [])
    → make_root_at euid r s ≡ ok s'
    → s'.items ≡ s.items
make_root_at-items euid absent s s' w h =
    ap (λ (s : Site). s.items) (sym (ok-injective h)) ∙ sym (w refl)
make_root_at-items euid (real uid mode) s s' w h = ap (λ (s : Site). s.items) (sym (ok-injective h))
make_root_at-items euid (unreal true) s s' w h = ap (λ (s : Site). s.items) (sym (ok-injective h))
make_root_at-items euid (unreal false) s s' w h = absurd (cc h)

pub make_root-items :
    (euid : ℕ) (s s' : Site)
    → (s.root ≡ absent → s.items ≡ [])
    → make_root euid s ≡ ok s'
    → s'.items ≡ s.items
unfolding make_root
make_root-items euid s s' w h = make_root_at-items euid s.root s s' w h

-- The record equation that a call's result gives.
items_of : (d : Dict Item) (s s' : Site) → ok (record s { items = d }) ≡ ok s' → s'.items ≡ d
items_of d s s' h = ap (λ (s : Site). s.items) (sym (ok-injective h))

module _ (name : String) (s s' : Site) where
  unlink_at-items : (o : Option Item) → unlink_at name s o ≡ ok s' → s'.items ≡ erase name s.items
  unlink_at-items none h = absurd (cc h)
  unlink_at-items (some (folder _)) h = absurd (cc h)
  unlink_at-items (some (link _)) h = items_of _ s s' h
  unlink_at-items (some other) h = items_of _ s s' h

  pub unlink-items : unlink name s ≡ ok s' → s'.items ≡ erase name s.items
  unfolding unlink
  unlink-items h = unlink_at-items (lookup name s.items) h

  rmdir_at-items : (o : Option Item) → rmdir_at name s o ≡ ok s' → s'.items ≡ erase name s.items
  rmdir_at-items none h = absurd (cc h)
  rmdir_at-items (some (folder [])) h = items_of _ s s' h
  rmdir_at-items (some (folder (_ ∷ _))) h = absurd (cc h)
  rmdir_at-items (some (link _)) h = absurd (cc h)
  rmdir_at-items (some other) h = absurd (cc h)

  pub rmdir-items : rmdir name s ≡ ok s' → s'.items ≡ erase name s.items
  unfolding rmdir
  rmdir-items h = rmdir_at-items (lookup name s.items) h

  add_at-items :
      (item : Item) (o : Option Item)
      → add_at name item s o ≡ ok s'
      → (o ≡ none) × (s'.items ≡ insert name item s.items)
  add_at-items item none h = (refl, items_of _ s s' h)
  add_at-items item (some _) h = absurd (cc h)

  pub symlink-items :
      (target : String)
      → symlink name target s ≡ ok s'
      → s'.items ≡ insert name (link target) s.items
  unfolding symlink
  symlink-items target h = (add_at-items (link target) (lookup name s.items) h).1

  pub make_folder-items :
      make_folder name s ≡ ok s'
      → (lookup name s.items ≡ none) × (s'.items ≡ insert name (folder []) s.items)
  unfolding make_folder
  make_folder-items h = add_at-items (folder []) (lookup name s.items) h

  put_files-items :
      (r : Result (Dict (List ℕ)))
      → put_files name s r ≡ ok s'
      → (files : Dict (List ℕ)) × (r ≡ ok files) × (s'.items ≡ insert name (folder files) s.items)
  put_files-items (ok files) h = (files, refl, items_of _ s s' h)
  put_files-items (err e) h = absurd (cc h)

  in_folder_at-items :
      (f : Dict (List ℕ) → Result (Dict (List ℕ))) (o : Option Item)
      → in_folder_at name f s o ≡ ok s'
      → (old : Dict (List ℕ)) × (new : Dict (List ℕ)) × (o ≡ some (folder old))
        × (f old ≡ ok new)
        × (s'.items ≡ insert name (folder new) s.items)
  in_folder_at-items f none h = absurd (cc h)
  in_folder_at-items f (some (folder old)) h =
      let (new, e, p) = put_files-items (f old) h in (old, new, refl, e, p)
  in_folder_at-items f (some (link _)) h = absurd (cc h)
  in_folder_at-items f (some other) h = absurd (cc h)

  pub in_folder-items :
      (f : Dict (List ℕ) → Result (Dict (List ℕ)))
      → in_folder name f s ≡ ok s'
      → (old : Dict (List ℕ)) × (new : Dict (List ℕ)) × (lookup name s.items ≡ some (folder old))
        × (f old ≡ ok new)
        × (s'.items ≡ insert name (folder new) s.items)
  unfolding in_folder
  in_folder-items f h = in_folder_at-items f (lookup name s.items) h

module _ (source destination : String) (s s' : Site) where
  replace_at-items :
      (o p : Option Item)
      → replace_at source destination s o p ≡ ok s'
      → (moved : Item) × (o ≡ some moved)
        × (s'.items ≡ insert destination moved (erase source s.items))
  replace_at-items none p h = absurd (cc h)
  replace_at-items (some moved) none h = (moved, refl, items_of _ s s' h)
  replace_at-items (some moved) (some (folder _)) h = absurd (cc h)
  replace_at-items (some moved) (some (link _)) h = (moved, refl, items_of _ s s' h)
  replace_at-items (some moved) (some other) h = (moved, refl, items_of _ s s' h)

  pub replace-items :
      replace source destination s ≡ ok s'
      → (moved : Item) × (lookup source s.items ≡ some moved)
        × (s'.items ≡ insert destination moved (erase source s.items))
  unfolding replace
  replace-items h = replace_at-items (lookup source s.items) (lookup destination s.items) h
