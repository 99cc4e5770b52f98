-- ===== src/Renew/Install/Blocked.antt =====
-- `owner_install` of renew.py where the backup of an earlier renewal is still there.
use aura_server.Base.{ℕ, ◌≡◌, ap, ◌∙◌, String, Bool, true, false, some, List, Result, ok}
use aura_server.Base.Dict.{Dict}
use aura_server.Script.{Machine, Script, when, command}
use aura_server.Script.Rules.{
  Holds, Holds-bind, Holds-lift, Holds-gets, Holds-change, Holds-pure, Holds-throw, Holds-command,
  Holds-try_except, Holds-for_each,
}
use aura_server.Renew.State.{Owner, make_backup}
use aura_server.Renew.Install.{names, check_private, as_owner, owner_files, owner_install}

module _ {S A : Type 0} {sight exc : S → Type 0} {post : A → S → Type 0} where
  -- What cannot be reached.
  unreached-Holds : (m : Script S A) → Holds sight (λ _. ⊥) m post exc
  unreached-Holds m = record { at = λ w s p. absurd p }

not_made : (s s' : Owner) (b : Dict (List ℕ)) → s.backup ≡ some b → make_backup s ≡ ok s' → ⊥
not_made s s' b there e = absurd (cc (rw there at e))

module _ (h : Machine) (s0 : Owner) (b : Dict (List ℕ)) (there : s0.backup ≡ some b) where
  abbrev Same : Owner → Type 0
  Same s = s ≡ s0

  check_private-Same :
      (uid : ℕ) (name : String) → Holds Same Same (check_private uid name) (λ _. Same) Same
  unfolding check_private
  check_private-Same uid name =
      Holds-bind (λ _. Same) _ _ (Holds-gets _ (λ s p. p))
        λ r. Holds-lift r (λ _ s _ p. p) (λ s p. p)

  owner_files-Same :
      (fresh : Owner → String) (cert key : List ℕ) (uid : ℕ)
      → Holds Same Same (owner_files h fresh cert key uid) (λ _ _. ⊥) Same
  unfolding owner_files
  owner_files-Same fresh cert key uid =
      Holds-bind (λ _. Same) _ _ (Holds-gets _ (λ s p. p))
        λ r.
          Holds-bind (λ _. Same) _ _ (Holds-lift r (λ _ s _ p. p) (λ s p. p))
            λ _.
              Holds-bind (λ _. Same) _ _
                (Holds-for_each (check_private uid) names (λ s p. p) (check_private-Same uid))
                λ _.
                  Holds-bind (λ _ _. ⊥) _ _
                    (Holds-change h make_backup
                      (λ s s' p e.
                        absurd (not_made s s' b (ap (λ (s : Owner). s.backup) p ∙ there) e))
                      (λ s p. p))
                    λ _. unreached-Holds _

  stop-Same :
      (active : Bool) (args : List String)
      → Holds Same Same (when active (command h args)) (λ _. Same) Same
  stop-Same true args = Holds-command h args (λ s p. p) (λ s p. p)
  stop-Same false args = Holds-pure tt (λ s p. p)

  pub owner_install-Same :
      (fresh : Owner → String) (cert key : Result (List ℕ)) (root : String) (uid : ℕ)
      (active : Bool)
      → Holds Same Same (owner_install h fresh cert key root uid active) (λ _ _. ⊥) Same
  unfolding owner_install as_owner
  owner_install-Same fresh cert key root uid active =
      Holds-bind (λ _. Same) _ _ (Holds-lift cert (λ _ s _ p. p) (λ s p. p))
        λ cert_bytes.
          Holds-bind (λ _. Same) _ _ (Holds-lift key (λ _ s _ p. p) (λ s p. p))
            λ key_bytes.
              Holds-bind (λ _. Same) _ _ (stop-Same active _)
                λ _.
                  Holds-bind (λ _ _. ⊥) _ _
                    (Holds-try_except Same _ _ (owner_files-Same fresh cert_bytes key_bytes uid)
                      (λ _. Holds-throw _ (λ s p. p)))
                    λ _. unreached-Holds _
