-- ===== src/Script/Runs.antt =====
-- Runs one after the other, each of which a crash may end.
use aura_server.Base.{List, [], ◌∷◌, All, sym}
use mathlib.Core.Path.{subst}
use mathlib.Core.List.{Memᴰ}
use aura_server.Script.{World}

-- What a run leaves: its last state, or after a crash any that it has passed.
abbrev pub states : {S : Type 0} → World S → List S
states w = w.now ∷ w.past

seen_at : {S : Type 0} (P : S → Type 0) (t : S) (l : List S) → All P l → Memᴰ t l → P t
seen_at P t [] seen m = elim m [ ]
seen_at P t (s ∷ l) (p, ps) (Memᴰ.head e) = subst P (sym e) p
seen_at P t (s ∷ l) (p, ps) (Memᴰ.tail m) = seen_at P t l ps m

module _ {S R : Type 0} (run : R → S → World S) (first : S) where
  -- Where runs lead, the latest first. What a crash leaves, the next one starts from.
  pub data Reached : List R → S → Type 0 where
    start : Reached [] first
    later :
        {rs : List R} {s t : S} (r : R)
        → Reached rs s
        → Memᴰ t (states (run r s))
        → Reached (r ∷ rs) t

  -- What holds at first, and which each run keeps in all its states.
  pub Reached-induct :
      (inv : List R → S → Type 0)
      → inv [] first
      → ((rs : List R) (r : R) (s : S) → inv rs s → All (inv (r ∷ rs)) (states (run r s)))
      → (rs : List R) (s : S) → Reached rs s
      → inv rs s
  Reached-induct inv base step _ _ start = base
  Reached-induct inv base step _ t (later {rs = rs} {s = s} r before at) =
      seen_at (inv (r ∷ rs)) t (states (run r s))
        (step rs r s (Reached-induct inv base step rs s before)) at
