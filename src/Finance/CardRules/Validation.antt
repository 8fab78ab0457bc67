-- ===== src/Finance/CardRules/Validation.antt =====
-- What the rules that `validateRules` accepts satisfy.
use bonde_backend.Common.{
  ℕ, ◌≤◌, ◌<◌, ◌^◌, ◌≡◌, refl, true, false, Option, none, some, List, [], ◌∷◌, arith, any, All, ◌≢◌,
  ◌||◌, not, ◌&&◌, is_some,
}
use bonde_backend.Common.Text.{Text, is_blank}
use bonde_backend.Common.Http.{ok, throw_if-ok}
use bonde_backend.Finance.CardRules.{
  categories_of, texts_of, merchants_of, usage_of, limit_of, RuleType, self_destruct, merchant,
  time, category, budget, Category, no_codes, category_mccs, CardRules, RawRules, Item, text,
  not_a_text, type_is, validate_rules, rules_of, bad_label, bad_type, bad_limit, bad_usage_limit,
  bad_window, bad_merchants, bad_categories, is_unlisted, bad_flag, raw_type, instant_of,
  bad_merchant_id, RawList, array, not_an_array, RawNumber,
}

abbrev pub IsPositive : Option ℕ → Type 0
IsPositive none = Unit
IsPositive (some n) = 0 < n

-- What each type of rule needs in order to be decided.
abbrev pub IsComplete : Option RuleType → CardRules → Type 0
IsComplete none rule = Unit
IsComplete (some self_destruct) rule = (1 ≤ rule.usage_limit) × (rule.usage_limit < 2 ^ 53)
IsComplete (some time) rule = rule.start < rule.end
IsComplete (some merchant) rule = All (λ id. is_blank id ≡ false) rule.merchant_ids
IsComplete (some category) rule =
    (rule.categories ≢ []) × All (λ c. category_mccs c ≢ no_codes) rule.categories
IsComplete (some budget) rule = rule.monthly_limit ≢ none

pub record IsWellFormed (rule : CardRules) : Type 0 where
  pub single : IsPositive rule.max_spend_limit
  pub monthly : IsPositive rule.monthly_limit
  pub complete : IsComplete rule.type rule

-- The checks of `validateRules`, none of which has fired.
record Checked (parse : Text → Option ℕ) (r : RawRules) : Type 0 where
  type : bad_type r.type ≡ false
  limits : (bad_limit r.max_spend_limit || bad_limit r.monthly_limit) ≡ false
  usage : (type_is self_destruct (raw_type r.type) && bad_usage_limit r.usage_limit) ≡ false
  window :
      (type_is time (raw_type r.type)
        && bad_window parse (instant_of parse r.start) (instant_of parse r.end))
      ≡ false
  merchants :
      (type_is merchant (raw_type r.type) && bad_merchants r.merchant_ids r.pending_merchant_label)
      ≡ false
  categories : (type_is category (raw_type r.type) && bad_categories r.categories) ≡ false
  monthly_budget : (type_is budget (raw_type r.type) && not (is_some r.monthly_limit)) ≡ false

module _ (parse : Text → Option ℕ) (r : RawRules) (rule : CardRules) where
  validate_rules-Checked :
      validate_rules parse r ≡ ok rule → Checked parse r × (rule ≡ rules_of parse r)
  unfolding validate_rules
  validate_rules-Checked h =
      let (_, h) = throw_if-ok r.unsupported_key _ _ h in
      let (_, h) = throw_if-ok (bad_label r.pending_merchant_label) _ _ h in
      let (type, h) = throw_if-ok (bad_type r.type) _ _ h in
      let (limits, h) =
        throw_if-ok (bad_limit r.max_spend_limit || bad_limit r.monthly_limit) _ _ h in
      let (usage, h) =
        throw_if-ok (type_is self_destruct (raw_type r.type) && bad_usage_limit r.usage_limit) _ _
          h in
      let (window, h) =
        throw_if-ok
          (type_is time (raw_type r.type)
            && bad_window parse (instant_of parse r.start) (instant_of parse r.end))
          _ _ h in
      let (merchants, h) =
        throw_if-ok
          (type_is merchant (raw_type r.type)
            && bad_merchants r.merchant_ids r.pending_merchant_label)
          _ _ h in
      let (categories, h) =
        throw_if-ok (type_is category (raw_type r.type) && bad_categories r.categories) _ _ h in
      let (monthly_budget, h) =
        throw_if-ok (type_is budget (raw_type r.type) && not (is_some r.monthly_limit)) _ _ h in
      let (_, h) =
        throw_if-ok
          (bad_flag r.allow_top_up
            || bad_flag r.notify_half_spent
            || bad_flag r.notify_low_balance
            || bad_flag r.notify_budget_reached)
          _ _ h in
      (
        record {
          type = type;
          limits = limits;
          usage = usage;
          window = window;
          merchants = merchants;
          categories = categories;
          monthly_budget = monthly_budget;
        },
        cc,
      )

texts_not_blank :
    (is : List Item)
    → any bad_merchant_id is ≡ false
    → All (λ id. is_blank id ≡ false) (texts_of is)
unfolding bad_merchant_id
texts_not_blank [] h = tt
texts_not_blank (text t ∷ is) h = ground (arith, texts_not_blank is)
texts_not_blank (not_a_text ∷ is) h = cc

merchants_not_blank :
    (ids : Option (RawList Item)) (label : Option Item)
    → bad_merchants ids label ≡ false
    → All (λ id. is_blank id ≡ false) (merchants_of ids)
unfolding bad_merchants
merchants_not_blank none label h = tt
merchants_not_blank (some not_an_array) label h = tt
merchants_not_blank (some (array is)) label h = texts_not_blank is (ground arith)

any_listed :
    (cs : List Category) → any is_unlisted cs ≡ false → All (λ c. category_mccs c ≢ no_codes) cs
unfolding is_unlisted
any_listed [] h = tt
any_listed (c ∷ cs) h = ((λ e. ground arith), any_listed cs (ground arith))

categories_listed :
    (cs : Option (RawList Category))
    → bad_categories cs ≡ false
    → (categories_of cs ≢ []) × All (λ c. category_mccs c ≢ no_codes) (categories_of cs)
unfolding bad_categories
categories_listed none h = cc
categories_listed (some not_an_array) h = cc
categories_listed (some (array cs)) h = (ground arith, any_listed cs (ground arith))

limit-IsPositive : (i : Option Item) → bad_limit i ≡ false → IsPositive (limit_of i)
unfolding bad_limit
limit-IsPositive none h = tt
limit-IsPositive (some not_a_text) h = tt
limit-IsPositive (some (text t)) h = ground arith

limit-some : (i : Option Item) → bad_limit i ≡ false → is_some i ≡ true → limit_of i ≢ none
unfolding bad_limit
limit-some none h e = cc
limit-some (some not_a_text) h e = cc
limit-some (some (text t)) h e = ground arith

usage_bounds :
    (u : Option RawNumber) → bad_usage_limit u ≡ false → (1 ≤ usage_of u) × (usage_of u < 2 ^ 53)
unfolding bad_usage_limit
usage_bounds u h = ground arith

module _ (parse : Text → Option ℕ) (r : RawRules) (c : Checked parse r) where
  rules_of-IsComplete :
      (t : Option RuleType) → raw_type r.type ≡ t → IsComplete t (rules_of parse r)
  unfolding rules_of bad_window
  rules_of-IsComplete none e = tt
  rules_of-IsComplete (some self_destruct) e = usage_bounds r.usage_limit (ground (arith, c.usage))
  rules_of-IsComplete (some time) e = ground (arith, c.window)
  rules_of-IsComplete (some merchant) e =
      merchants_not_blank r.merchant_ids r.pending_merchant_label (ground (arith, c.merchants))
  rules_of-IsComplete (some category) e =
      categories_listed r.categories (ground (arith, c.categories))
  rules_of-IsComplete (some budget) e =
      limit-some r.monthly_limit (ground (arith, c.limits)) (ground (arith, c.monthly_budget))

  rules_of-IsWellFormed : IsWellFormed (rules_of parse r)
  unfolding rules_of
  rules_of-IsWellFormed = record {
    single = limit-IsPositive r.max_spend_limit (ground (arith, c.limits));
    monthly = limit-IsPositive r.monthly_limit (ground (arith, c.limits));
    complete = rules_of-IsComplete (raw_type r.type) refl;
  }

-- Rules that `validateRules` accepts can be decided: the limits given are positive, a use-limited card
-- has from 1 to 2 ^ 53 - 1 uses, a timed card's window ends after it starts, no bound merchant is
-- blank, a category card has a category and each of them is in the table or is a property that every
-- object inherits, and a budget card has a monthly limit.
pub validate_rules-IsWellFormed :
    (parse : Text → Option ℕ) (r : RawRules) {rule : CardRules}
    → validate_rules parse r ≡ ok rule
    → IsWellFormed rule
validate_rules-IsWellFormed parse r {rule} h =
    let (c, e) = validate_rules-Checked parse r rule h in rw e (rules_of-IsWellFormed parse r c)
