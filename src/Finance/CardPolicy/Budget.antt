-- ===== src/Finance/CardPolicy/Budget.antt =====
-- Budget alerts over a run of settled purchases.
use bonde_backend.Common.{
  ap, ℕ, ◌+◌, ◌*◌, ◌≤◌, ◌≡◌, Bool, true, false, none, some, List, [], ◌∷◌, ◌++◌, arith,
  if◌then◌else◌, leb, ltb, ◌&&◌,
}
use native.Mathlib.Nat.{add_assoc}
use bonde_backend.Finance.CardPolicy.{
  AlertTitle, half_spent, fifth_remains, budget_reached, BudgetCard, budget_alert_titles,
}

abbrev pub is_title : AlertTitle → AlertTitle → Bool
is_title half_spent half_spent = true
is_title fifth_remains fifth_remains = true
is_title budget_reached budget_reached = true
is_title _ _ = false

-- How often a title stands in a list of alerts.
abbrev pub count : AlertTitle → List AlertTitle → ℕ
count t [] = 0
count t (u ∷ us) = (if is_title t u then 1 else 0) + count t us

-- The alerts of purchases that settle one after the other.
unfoldable pub alerts : BudgetCard → ℕ → List ℕ → List AlertTitle
alerts card spent [] = []
alerts card spent (amount ∷ amounts) =
    budget_alert_titles card spent amount ++ alerts card (spent + amount) amounts

unfoldable pub sum : List ℕ → ℕ
sum [] = 0
sum (x ∷ xs) = x + sum xs

count-append :
    (t : AlertTitle) (us vs : List AlertTitle) → count t (us ++ vs) ≡ count t us + count t vs
count-append t [] vs = omega arith
count-append t (u ∷ us) vs = omega (arith, count-append t us vs)

-- Whether the alert of a title is enabled, and its ratio in hundredths.
abbrev pub enabled : BudgetCard → AlertTitle → Bool
enabled card half_spent = card.notify_half_spent
enabled card fifth_remains = card.notify_low_balance
enabled card budget_reached = card.notify_budget_reached

abbrev pub ratio : AlertTitle → ℕ
ratio half_spent = 50
ratio fifth_remains = 80
ratio budget_reached = 100

-- 1 if spending goes over a title's share of the budget between two amounts, 0 if not.
abbrev pub crossing : BudgetCard → AlertTitle → ℕ → ℕ → ℕ
crossing card t before after = elim card.monthly_limit [
  | none ↦ 0
  | some limit ↦
      if enabled card t
        && ltb (before * 100) (limit * ratio t)
        && leb (limit * ratio t) (after * 100)
      then 1
      else 0
]

count-budget_alert_titles :
    (card : BudgetCard) (spent amount : ℕ) (t : AlertTitle)
    → count t (budget_alert_titles card spent amount) ≡ crossing card t spent (spent + amount)
unfolding budget_alert_titles
count-budget_alert_titles card spent amount half_spent = ground arith
count-budget_alert_titles card spent amount fifth_remains = ground arith
count-budget_alert_titles card spent amount budget_reached = ground arith

crossing-add :
    (card : BudgetCard) (t : AlertTitle) (a b c : ℕ)
    → a ≤ b
    → b ≤ c
    → crossing card t a b + crossing card t b c ≡ crossing card t a c
crossing-add card half_spent a b c h k = ground arith
crossing-add card fifth_remains a b c h k = ground arith
crossing-add card budget_reached a b c h k = ground arith

crossing_none : (card : BudgetCard) (t : AlertTitle) (a : ℕ) → 0 ≡ crossing card t a (a + 0)
crossing_none card half_spent a = ground arith
crossing_none card fifth_remains a = ground arith
crossing_none card budget_reached a = ground arith

-- However the purchases of a month are divided, each alert is sent exactly once if it is enabled and
-- spending goes from below its share of the monthly limit (50, 80 or 100 per cent) to that share or
-- beyond, and never otherwise.
pub count-alerts :
    (card : BudgetCard) (t : AlertTitle) (spent : ℕ) (amounts : List ℕ)
    → count t (alerts card spent amounts) ≡ crossing card t spent (spent + sum amounts)
unfolding alerts sum
count-alerts card t spent [] = crossing_none card t spent
count-alerts card t spent (amount ∷ amounts) = omega (
  arith,
  count-append t (budget_alert_titles card spent amount) (alerts card (spent + amount) amounts),
  count-budget_alert_titles card spent amount t,
  count-alerts card t (spent + amount) amounts,
  crossing-add card t spent (spent + amount) (spent + amount + sum amounts) (omega arith)
      (omega arith),
  ap (crossing card t spent) (add_assoc spent amount (sum amounts)),
)
