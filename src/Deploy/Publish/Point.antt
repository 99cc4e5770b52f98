-- ===== src/Deploy/Publish/Point.antt =====
-- `point` of ip_deploy.py: what the services are given before and after each of its steps.
use aura_server.Base.{
  ℕ, ◌≡◌, ap, ◌≢◌, String, Bool, true, false, Option, none, some, List, string_eq, ok, ok-injective,
  arith,
}
use aura_server.Base.Dict.{Dict, lookup, erase, lookup-insert, lookup-erase}
use aura_server.Script.{Machine, gets, when, change}
use aura_server.Script.Rules.{Holds, Holds-weaken, Holds-bind, Holds-gets, Holds-change, Holds-pure}
use aura_server.Deploy.Site.{Site, Item, folder, link, unlink, symlink, replace}
use aura_server.Deploy.Site.Changes.{unlink-items, symlink-items, replace-items}
use aura_server.Deploy.Publish.{point, sync, is_present}
use mathlib.Core.Path.{subst}
use text.Mathlib.TextEquality.{eq_iff}

-- The two files of the directory that an entry is.
abbrev pub pair_in : Option Item → Option (List ℕ) × Option (List ℕ)
pair_in (some (folder files)) = (lookup "fullchain.pem" files, lookup "privkey.pem" files)
pair_in _ = (none, none)

abbrev pub pair_behind : Dict Item → Option Item → Option (List ℕ) × Option (List ℕ)
pair_behind items (some (link name)) = pair_in (lookup name items)
pair_behind items _ = (none, none)

-- The certificate and the key that a service finds under `current`.
unfoldable pub served : Dict Item → Option (List ℕ) × Option (List ℕ)
served items = pair_behind items (lookup "current" items)

-- The entries of `d`, but for the link that is being made.
abbrev pub Agrees : Dict Item → Site → Type 0
Agrees d s = (j : String) → j ≢ ".current-next" → lookup j s.items ≡ lookup j d

-- The same, with `current` set to `name`.
abbrev pub Pointed : Dict Item → String → Site → Type 0
Pointed d name s =
    (lookup "current" s.items ≡ some (link name))
    × ((j : String) → j ≢ ".current-next" → j ≢ "current" → lookup j s.items ≡ lookup j d)

abbrev pub Linked : Dict Item → String → Site → Type 0
Linked d name s = Agrees d s × (lookup ".current-next" s.items ≡ some (link name))

module _ (h : Machine) (sight exc : Site → Type 0) where
  pub sync-keeps :
      (P : Site → Type 0)
      → ((s : Site) → P s → sight s)
      → ((s : Site) → P s → exc s)
      → Holds sight P (sync h) (λ _. P) exc
  unfolding sync
  sync-keeps P see leave =
      Holds-change h ok (λ s s' p e. let q : P s' = subst P (ok-injective e) p in (see s' q, q))
        leave

module _ (h : Machine) (d : Dict Item) (name : String) (sight exc : Site → Type 0) where
  Agrees-unlink : (s s' : Site) → Agrees d s → unlink ".current-next" s ≡ ok s' → Agrees d s'
  Agrees-unlink s s' a e j n = ground (
    arith,
    unlink-items ".current-next" s s' e,
    lookup-erase ".current-next" j s.items,
    eq_iff ".current-next" j,
    a j n,
  )

  Linked-symlink :
      (s s' : Site) → Agrees d s → symlink ".current-next" name s ≡ ok s' → Linked d name s'
  Linked-symlink s s' a e = (
    λ j n. ground (
      arith,
      symlink-items ".current-next" s s' name e,
      lookup-insert ".current-next" j (link name) s.items,
      eq_iff ".current-next" j,
      a j n,
    ),
    ground (
      arith,
      symlink-items ".current-next" s s' name e,
      lookup-insert ".current-next" ".current-next" (link name) s.items,
    ),
  )

  Pointed-replace :
      (s s' : Site)
      → Linked d name s
      → replace ".current-next" "current" s ≡ ok s'
      → Pointed d name s'
  Pointed-replace s s' (a, l) e =
      let (moved, there, items) = replace-items ".current-next" "current" s s' e in
      let rest = erase ".current-next" s.items in
      (
        ground (arith, lookup-insert "current" "current" moved rest, there, items, l),
        λ j n m. ground (
          arith,
          items,
          lookup-insert "current" j moved rest,
          lookup-erase ".current-next" j s.items,
          eq_iff "current" j,
          eq_iff ".current-next" j,
          a j n,
        ),
      )

  clear-Holds :
      ((s : Site) → Agrees d s → sight s × exc s)
      → (stale : Bool)
      → Holds sight (Agrees d) (when stale (change h (unlink ".current-next"))) (λ _. Agrees d) exc
  clear-Holds see true =
      Holds-change h (unlink ".current-next")
        (λ s s' a e. let b = Agrees-unlink s s' a e in ((see s' b).0, b)) (λ s a. (see s a).1)
  clear-Holds see false = Holds-pure tt (λ s a. a)

  -- Until the link is replaced the entries agree with `d`, and afterwards `current` is `name`.
  pub point-Holds :
      ((s : Site) → Agrees d s → sight s × exc s)
      → ((s : Site) → Pointed d name s → sight s × exc s)
      → Holds sight (Agrees d) (point h name) (λ _. Pointed d name) exc
  unfolding point
  point-Holds see moved =
      Holds-bind (λ _. Agrees d) (gets (is_present ".current-next")) _ (Holds-gets _ (λ s a. a))
        λ stale.
          Holds-bind (λ _. Agrees d) _ _ (clear-Holds see stale)
            λ _.
              Holds-bind (λ _. Linked d name) _ _
                (Holds-change h (symlink ".current-next" name)
                  (λ s s' a e. let b = Linked-symlink s s' a e in ((see s' b.0).0, b))
                  (λ s a. (see s a).1))
                λ _.
                  Holds-bind (λ _. Pointed d name) _ _
                    (Holds-change h (replace ".current-next" "current")
                      (λ s s' a e. let b = Pointed-replace s s' a e in ((moved s' b).0, b))
                      (λ s a. (see s a.0).1))
                    λ _.
                      sync-keeps h sight exc (Pointed d name) (λ s p. (moved s p).0)
                        (λ s p. (moved s p).1)

-- The same, from a state with a name.
pub point_from-Holds :
    (h : Machine) (s0 : Site) (name : String) (sight exc : Site → Type 0)
    → ((s : Site) → Agrees s0.items s → sight s × exc s)
    → ((s : Site) → Pointed s0.items name s → sight s × exc s)
    → Holds sight (λ s. s ≡ s0) (point h name) (λ _. Pointed s0.items name) exc
point_from-Holds h s0 name sight exc see moved =
    Holds-weaken (λ s. s ≡ s0) (λ _. Pointed s0.items name) exc (point h name)
      (λ s q j n. ap (λ (s : Site). lookup j s.items) q) (λ _ _ p. p) (λ _ p. p)
      (point-Holds h s0.items name sight exc see moved)
