-- ===== src/Renew/Validate/Total.antt =====
-- `validate_pair` of renew.py, and the question whether a service is active, where each command succeeds.
use aura_server.Base.{◌≡◌, String, Bool, true, ok}
use aura_server.Script.{Machine}
use aura_server.Script.Total.{
  IsWilling, Works, Works-bind, Works-pure, Works-lift, Works-command, Works-try_except,
}
use aura_server.Renew.Validate.{Library, Snapshot, check_pair}
use aura_server.Renew.Validate.Commands.{validate_pair, is_active}

module _ {S : Type 0} (h : Machine) (willing : IsWilling h) (P : S → Type 0) where
  pub is_active-Works : (service : String) → Works P (is_active h service) (λ _. P)
  unfolding is_active
  is_active-Works service = Works-try_except _ _ (
      Works-bind (λ _. P) _ _ (Works-command h willing P _ (λ s p. p))
        λ _. Works-pure true (λ s p. p))

  pub validate_pair-Works :
      (L : Library) (pair : Snapshot) (host : String) (ip_identifier : Bool) (name : String)
      → check_pair L pair host ip_identifier ≡ ok name
      → Works P (validate_pair h L pair host ip_identifier) (λ _. P)
  unfolding validate_pair
  validate_pair-Works L pair host ip_identifier name good =
      Works-bind (λ _. P) _ _ (Works-lift _ name good (λ s p. p))
        λ _.
          Works-bind (λ _. P) _ _ (Works-command h willing P _ (λ s p. p))
            λ _. Works-command h willing P _ (λ s p. p)
