-- ===== src/Finance/Policy/Deadline.antt =====
-- When `FinancePolicy.snapshot` finds that a card must retire.
use bonde_backend.Common.{refl}
use bonde_backend.Common.{◌↔◌, none}
use bonde_backend.Common.{length}
use bonde_backend.Finance.Policy.{
  no_rules, completed, active_locks, primary_rule, controls, reason_of, deadline_of, holds,
  snapshot, Snapshot, sum_remaining,
}
use bonde_backend.Common.{is_some}
use bonde_backend.Common.{ℕ, ◌≤◌, ◌≡◌, ◌⊎◌, arith, ap, subst, Option, some, [], ◌∷◌, true}
use bonde_backend.Common.Http.{Result, ok, err, ok_of_bind}
use bonde_backend.Common.Text.{Text}
use bonde_backend.Finance.Database.{CardLock, Card, Database}
use bonde_backend.Finance.CardRules.{
  validate_rules, time, RuleType-discrete, CardRules, self_destruct,
}

-- The instant is past the expiry of the card, past the end that its controls have, or past the end of its
-- time window.
abbrev pub IsPast : Card → CardRules → ℕ → Type 0
IsPast card rule instant =
    (card.expiration_date ≤ instant)
    ⊎ ((t : ℕ) × (card.control_expires_at ≡ some t) × (t ≤ instant))
    ⊎ ((rule.type ≡ some time) × (rule.end ≤ instant))

-- The causes for which a card must retire.
abbrev pub IsDue : Card → CardRules → ℕ → ℕ → Type 0
IsDue card rule completed_uses now =
    (is_some card.retirement_reason ≡ true)
    ⊎ IsPast card rule now
    ⊎ ((rule.type ≡ some self_destruct) × (rule.usage_limit ≤ completed_uses))

-- The rules that a card has: none without a lock of its own, or those of its one active lock, which must be
-- of the type it was made with.
pub data IsRuled (parse : Text → Option ℕ) (card : Card) (db : Database) : CardRules → Type 0 where
  standard :
      card.creation_lock_type ≡ none → active_locks card db ≡ [] → IsRuled parse card db no_rules
  controlled :
      (l : CardLock) {rule : CardRules}
      → card.creation_lock_type ≡ some l.lock_type
      → active_locks card db ≡ l ∷ []
      → validate_rules parse l.config ≡ ok rule
      → rule.type ≡ some l.lock_type
      → IsRuled parse card db rule

module _ (parse : Text → Option ℕ) (month_start : ℕ → ℕ) (card : Card) (now : ℕ) (db : Database)
    (u : Snapshot) where
  deadline_of-IsPast :
      (rule : CardRules) (instant : ℕ)
      → deadline_of parse month_start card rule ≤ instant ↔ IsPast card rule instant
  unfolding RuleType-discrete
  deadline_of-IsPast rule instant = (λ h. ground (arith, h), λ h. ground (arith, h))

  reason_of-IsDue :
      (rule : CardRules) (done : ℕ)
      → is_some (reason_of parse month_start card rule done now) ≡ true ↔ IsDue card rule done now
  unfolding RuleType-discrete
  reason_of-IsDue rule done =
      let (to, from) = deadline_of-IsPast rule now in
      (λ h. ground (arith, h, to), λ h. ground (arith, h, from))

  IsRuled-controls :
      (rule : CardRules)
      → IsRuled parse card db rule
      → controls parse month_start
          (primary_rule parse month_start card.creation_lock_type (active_locks card db))
        ≡ (rule, true)
  unfolding primary_rule RuleType-discrete
  IsRuled-controls rule (standard open_type none_active) = rw (open_type, none_active) refl
  IsRuled-controls rule (controlled l made active valid typed) =
      grind (arith, made, active, valid, typed)

  -- A snapshot that returns, of a card that has the rules that belong to it, reports these rules as valid;
  -- its deadline has come at an instant exactly if the card's expiry, the end of its controls or the end of
  -- its time window has; and it gives a reason to retire the card exactly if the card has one already, the
  -- deadline has come, or the rule is for a number of uses that the completed ones have reached.
  pub snapshot-IsDue :
      (rule : CardRules)
      → IsRuled parse card db rule
      → snapshot parse month_start card now db ≡ ok u
      → (u.rule ≡ rule)
        × (u.controls_valid ≡ true)
        × ((instant : ℕ) → u.deadline ≤ instant ↔ IsPast card rule instant)
        × (is_some u.reason ≡ true ↔ IsDue card rule u.completed_uses now)
  unfolding snapshot
  snapshot-IsDue rule ruled h =
      let (held_now, summed, built) = ok_of_bind (sum_remaining (holds card db)) _ h in
      let value : Result Snapshot → Snapshot = λ r. elim r [ ok v ↦ v | err e ↦ u ] in
      subst
        (λ (v : Snapshot).
          (v.rule ≡ rule)
          × (v.controls_valid ≡ true)
          × ((instant : ℕ) → v.deadline ≤ instant ↔ IsPast card rule instant)
          × (is_some v.reason ≡ true ↔ IsDue card rule v.completed_uses now))
        (ap value built)
        (rw (IsRuled-controls rule ruled)
          (refl, refl, deadline_of-IsPast rule, reason_of-IsDue rule (length (completed card db))))
