-- ===== src/Renew/Install/Runs.antt =====
-- Renewals by renew.py's `owner_install` one after the other, each of which a crash may end.
use aura_server.Base.{
  ℕ, ◌≡◌, refl, sym, ◌∙◌, ◌⊎◌, inl, inr, Error, String, Bool, Option-cases, none, some, List, [],
  ◌∷◌, All, All-map, Result, Result-cases, ok, err,
}
use mathlib.Core.Path.{subst}
use aura_server.Base.Dict.{Dict}
use aura_server.Script.{World, Machine, lift, ◌>>=◌}
use aura_server.Script.Runs.{states, Reached, Reached-induct}
use aura_server.Renew.State.{Owner, read_live, read_in}
use aura_server.Renew.Install.{owner_install}
use aura_server.Renew.Install.Copy.{On}
use aura_server.Renew.Install.Pairs.{Pair, IsRecoverable}
use aura_server.Renew.Install.Recover.{owner_install-IsRecoverable}
use aura_server.Renew.Install.Blocked.{owner_install-Same}

-- One call of `owner_install`.
pub record Renewal : Type 0 where
  pub machine : Machine
  pub fresh : Owner → String
  pub cert : Result (List ℕ)
  pub key : Result (List ℕ)
  pub root : String
  pub uid : ℕ
  pub active : Bool
  pub commands : List (List String)

abbrev pub run : Renewal → Owner → World Owner
run r s =
    (owner_install r.machine r.fresh r.cert r.key r.root r.uid r.active
      (record { now = s; past = []; commands = r.commands })).1

-- Both files of the pair stand in the directory, or both in the backup.
abbrev pub Stands : List ℕ → List ℕ → Owner → Type 0
Stands cert key s =
    Pair (ok cert) (ok key) s.live
    ⊎ ((read_in "owner.crt" s.backup ≡ ok cert) × (read_in "owner.key" s.backup ≡ ok key))

-- A pair that was there at first, or that a renewal was given.
pub data IsKnown (first : Owner) : List Renewal → List ℕ → List ℕ → Type 0 where
  original : {cert key : List ℕ} → Stands cert key first → IsKnown first [] cert key
  earlier :
      {rs : List Renewal} {cert key : List ℕ} (r : Renewal)
      → IsKnown first rs cert key
      → IsKnown first (r ∷ rs) cert key
  given :
      {rs : List Renewal} {cert key : List ℕ} (r : Renewal)
      → r.cert ≡ ok cert
      → r.key ≡ ok key
      → IsKnown first (r ∷ rs) cert key

-- No half is all that is left: a whole pair stands.
pub record IsWhole (first : Owner) (rs : List Renewal) (s : Owner) : Type 0 where
  pub cert : List ℕ
  pub key : List ℕ
  pub known : IsKnown first rs cert key
  pub stands : Stands cert key s

module _ (first : Owner) (rs : List Renewal) (r : Renewal) (s : Owner)
    (safe : IsWhole first rs s) where
  unchanged : (t : Owner) → t ≡ s → IsWhole first (r ∷ rs) t
  unchanged t same = record {
    cert = safe.cert;
    key = safe.key;
    known = earlier r safe.known;
    stands = subst (Stands safe.cert safe.key) (sym same) safe.stands;
  }

  -- What a run that starts without a backup passes.
  recovered :
      (cert key : List ℕ)
      → r.cert ≡ ok cert
      → r.key ≡ ok key
      → Pair (ok safe.cert) (ok safe.key) s.live
      → (t : Owner)
      → On (IsRecoverable r.cert r.key (read_live "owner.crt" s) (read_live "owner.key" s)) t
      → IsWhole first (r ∷ rs) t
  recovered cert key is_cert is_key (old_cert, old_key) t (inl (p, q)) = record {
    cert = safe.cert;
    key = safe.key;
    known = earlier r safe.known;
    stands = inl (p ∙ old_cert, q ∙ old_key);
  }
  recovered cert key is_cert is_key (old_cert, old_key) t (inr (inl (_, p, q))) = record {
    cert = safe.cert;
    key = safe.key;
    known = earlier r safe.known;
    stands = inr (p ∙ old_cert, q ∙ old_key);
  }
  recovered cert key is_cert is_key _ t (inr (inr (p, q))) = record {
    cert = cert;
    key = key;
    known = given r is_cert is_key;
    stands = inl (p ∙ is_cert, q ∙ is_key);
  }

  Stands-live :
      s.backup ≡ none → Stands safe.cert safe.key s → Pair (ok safe.cert) (ok safe.key) s.live
  Stands-live free (inl p) = p
  Stands-live free (inr (p, _)) = absurd (cc (rw free at p))

  run_free :
      (cert key : List ℕ)
      → r.cert ≡ ok cert
      → r.key ≡ ok key
      → s.backup ≡ none
      → All (IsWhole first (r ∷ rs)) (states (run r s))
  run_free cert key is_cert is_key free =
      All-map _ (IsWhole first (r ∷ rs))
        (recovered cert key is_cert is_key (Stands-live free safe.stands)) (states (run r s))
        (owner_install-IsRecoverable r.machine r.fresh r.cert r.key r.root r.uid r.active s
          r.commands).0

  run_blocked :
      (b : Dict (List ℕ)) → s.backup ≡ some b → All (IsWhole first (r ∷ rs)) (states (run r s))
  run_blocked b there =
      All-map (λ t. t ≡ s) (IsWhole first (r ∷ rs)) unchanged (states (run r s))
        ((owner_install-Same r.machine s b there r.fresh r.cert r.key r.root r.uid r.active).at
          (record { now = s; past = []; commands = r.commands }) (refl, tt) refl).0

  run_stopped : states (run r s) ≡ s ∷ [] → All (IsWhole first (r ∷ rs)) (states (run r s))
  run_stopped same = subst (All (IsWhole first (r ∷ rs))) (sym same) (unchanged s refl, tt)

  no_cert : (e : Error) → r.cert ≡ err e → states (run r s) ≡ s ∷ []
  unfolding owner_install lift ◌>>=◌
  no_cert e missing = rw missing refl

  no_key :
      (cert : List ℕ) (e : Error) → r.cert ≡ ok cert → r.key ≡ err e → states (run r s) ≡ s ∷ []
  unfolding owner_install lift ◌>>=◌
  no_key cert e is_cert missing = rw (is_cert, missing) refl

  run-IsWhole : All (IsWhole first (r ∷ rs)) (states (run r s))
  run-IsWhole = elim (Result-cases r.cert) [
    | inr (e, missing) ↦ run_stopped (no_cert e missing)
    | inl (cert, is_cert) ↦ elim (Result-cases r.key) [
      | inr (e, missing) ↦ run_stopped (no_key cert e is_cert missing)
      | inl (key, is_key) ↦ elim (Option-cases s.backup) [
        | inl free ↦ run_free cert key is_cert is_key free
        | inr (b, there) ↦ run_blocked b there
      ]
    ]
  ]

-- Renewals follow one another, each on a system that refuses whatever calls it likes, and a crash may end
-- each at any state it passes, from which the next one starts. If a whole pair stands at first, in the
-- directory or in a backup there, then a whole pair always stands in the directory or in the backup: one that was there at first, or the whole pair that one of the renewals was given.
pub reached-IsWhole :
    (first : Owner) (cert key : List ℕ) (rs : List Renewal) (s : Owner)
    → Stands cert key first
    → Reached run first rs s
    → IsWhole first rs s
reached-IsWhole first cert key rs s stands reached =
    let safe : IsWhole first [] first = record {
      cert = cert;
      key = key;
      known = original stands;
      stands = stands;
    } in
    Reached-induct run first (IsWhole first) safe (λ rs r s safe. run-IsWhole first rs r s safe) rs
      s reached
