-- ===== src/Finance/CardPolicy/Decision.antt =====
-- What a purchase that the policy lets pass satisfies, and that such a purchase does pass.
use bonde_backend.Common.{
  ◌==◌, ◌≢◌, Any, All, ℕ, ◌+◌, ◌≤◌, ◌<◌, ◌≡◌, refl, true, Option, none, some, List, [], ◌∷◌, arith,
  any, inl, inr, Bool-cases,
}
use bonde_backend.Common.Text.{Text, text_eq}
use bonde_backend.Common.Http.{ok}
use bonde_backend.Finance.CardRules.{
  RuleType, self_destruct, merchant, time, category, budget, Category, Codes, no_codes, not_a_list,
  codes, category_mccs, CardRules,
}
use bonde_backend.Finance.CardPolicy.{
  PurchaseRequest, Usage, some_category, category_decision, policy_decision,
}

-- The amount stays within a limit, if there is one.
abbrev pub IsWithin : ℕ → Option ℕ → Type 0
IsWithin n none = Unit
IsWithin n (some limit) = n ≤ limit

-- The category lists the code of the merchant.
abbrev pub Covers : ℕ → Category → Type 0
Covers mcc c = (ms : List ℕ) × (category_mccs c ≡ codes ms) × (any (λ m. m == mcc) ms ≡ true)

-- What each type of rule asks of a purchase.
abbrev pub Admits : Option RuleType → CardRules → PurchaseRequest → Usage → ℕ → Type 0
Admits none rule request usage now = Unit
Admits (some self_destruct) rule request usage now = usage.uses < rule.usage_limit
Admits (some time) rule request usage now = (rule.start ≤ now) × (now < rule.end)
Admits (some merchant) rule request usage now =
    Any (λ id. id ≡ request.merchant_id) rule.merchant_ids
Admits (some category) rule request usage now = Any (Covers request.mcc) rule.categories
Admits (some budget) rule request usage now = Unit

pub record Permits (rule : CardRules) (request : PurchaseRequest) (usage : Usage) (now : ℕ)
    : Type 0 where
  pub single : IsWithin request.amount rule.max_spend_limit
  pub monthly : IsWithin (usage.spent + request.amount) rule.monthly_limit
  pub admitted : Admits rule.type rule request usage now

any-text_eq :
    (t : Text) (ts : List Text) → any (λ id. text_eq id t) ts ≡ true → Any (λ id. id ≡ t) ts
any-text_eq t [] h = cc
any-text_eq t (u ∷ ts) h = ground (arith, any-text_eq t ts)

text_eq-any :
    (t : Text) (ts : List Text) → Any (λ id. id ≡ t) ts → any (λ id. text_eq id t) ts ≡ true
text_eq-any t [] h = absurd h
text_eq-any t (u ∷ ts) h = ground (arith, text_eq-any t ts)

some_category-Covers :
    (mcc : ℕ) (cs : List Category) → some_category mcc cs ≡ ok true → Any (Covers mcc) cs
unfolding some_category
some_category-Covers mcc [] h = cc
some_category-Covers mcc (c ∷ cs) h = go (category_mccs c) refl (some_category-Covers mcc cs)
  where
    go :
        (k : Codes)
        → category_mccs c ≡ k
        → (some_category mcc cs ≡ ok true → Any (Covers mcc) cs)
        → Any (Covers mcc) (c ∷ cs)
    go no_codes e ih = inr (ih (ground (arith, h, e)))
    go not_a_list e ih = ground (arith, h, e)
    go (codes ms) e ih = elim (Bool-cases (any (λ m. m == mcc) ms)) [
      | inl found ↦ inl (ms, e, found)
      | inr other ↦ inr (ih (ground (arith, h, e, other)))
    ]

-- Without inherited names no category makes the decision throw.
abbrev pub IsListed : Category → Type 0
IsListed c = category_mccs c ≢ not_a_list

some_category_total :
    (mcc : ℕ) (cs : List Category)
    → All IsListed cs
    → Any (Covers mcc) cs
    → some_category mcc cs ≡ ok true
unfolding some_category
some_category_total mcc [] listed h = absurd h
some_category_total mcc (c ∷ cs) (l, ls) (inl (ms, e, found)) = rw (e, some_category) (ground arith)
some_category_total mcc (c ∷ cs) (l, ls) (inr h) =
    go (category_mccs c) refl (some_category_total mcc cs ls h)
  where
    go :
        (k : Codes)
        → category_mccs c ≡ k
        → some_category mcc cs ≡ ok true
        → some_category mcc (c ∷ cs) ≡ ok true
    go no_codes e ih = ground (arith, e, ih)
    go not_a_list e ih = absurd (l e)
    go (codes ms) e ih = ground (arith, e, ih)

module _ (rule : CardRules) (request : PurchaseRequest) (usage : Usage) (now : ℕ) where
  Passes : Type 0
  Passes = policy_decision rule request usage now ≡ ok none

  admitted_of : (t : Option RuleType) → rule.type ≡ t → Passes → Admits t rule request usage now
  unfolding Passes policy_decision category_decision
  admitted_of none e h = tt
  admitted_of (some self_destruct) e h = ground arith
  admitted_of (some time) e h = ground arith
  admitted_of (some merchant) e h =
      ground (arith, any-text_eq request.merchant_id rule.merchant_ids)
  admitted_of (some category) e h = ground (arith, some_category-Covers request.mcc rule.categories)
  admitted_of (some budget) e h = tt

  passes_of :
      All IsListed rule.categories
      → IsWithin request.amount rule.max_spend_limit
      → IsWithin (usage.spent + request.amount) rule.monthly_limit
      → (t : Option RuleType) → rule.type ≡ t
      → Admits t rule request usage now
      → Passes
  unfolding Passes policy_decision category_decision
  passes_of listed single monthly none e a = ground arith
  passes_of listed single monthly (some self_destruct) e a = ground arith
  passes_of listed single monthly (some time) e a = ground arith
  passes_of listed single monthly (some merchant) e a =
      ground (arith, text_eq-any request.merchant_id rule.merchant_ids a)
  passes_of listed single monthly (some category) e a =
      ground (arith, some_category_total request.mcc rule.categories listed a)
  passes_of listed single monthly (some budget) e a = ground arith

  -- A purchase on which `policyDecision` finds nothing satisfies the card's rules: both limits hold of
  -- it, and what the rule's type asks (a use left, an instant inside the window, a bound merchant, a
  -- category that lists the merchant's code).
  pub policy_decision_sound :
      policy_decision rule request usage now ≡ ok none → Permits rule request usage now
  unfolding Passes policy_decision
  policy_decision_sound h = record {
    single = ground arith;
    monthly = ground arith;
    admitted = admitted_of rule.type refl h;
  }

  -- A purchase that satisfies the card's rules is let pass, if none of the rule's categories is a
  -- property that every object inherits.
  pub policy_decision_complete :
      All IsListed rule.categories
      → Permits rule request usage now
      → policy_decision rule request usage now ≡ ok none
  unfolding Passes
  policy_decision_complete listed p = passes_of listed p.single p.monthly rule.type refl p.admitted
