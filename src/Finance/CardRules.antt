-- ===== src/Finance/CardRules.antt =====
-- src/modules/finance/card-policy.ts: the rules of a card and their validation. Amounts are
-- hundredths, instants are milliseconds since a moment before every date that the code meets.
pub mod Validation
mod Tests
use Prim.Native.String.{String}
use bonde_backend.Common.{
  any, is_empty, ℕ, ◌+◌, ◌*◌, ◌^◌, ◌-◌, Bool, true, false, not, ◌&&◌, ◌||◌, Option, none, some,
  List, [], ◌∷◌, map, ite, leb, ltb, ◌==◌, length, is_some, if◌then◌else◌, ℕ_discrete,
}
use bonde_backend.Common.Int.{ℤ, pos, negsuc}
use bonde_backend.Common.Table.{find_many}
use bonde_backend.Common.Text.{Text, is_digit, span_digits, is_blank, text_eq}
use bonde_backend.Common.Http.{
  Exception, bad_request, other_error, Result, ok, err, ◌>>=◌, ◌>>◌, throw_if,
}
use bonde_backend.Finance.Amount.{match_amount}
use bonde_backend.Finance.Instant.{matches_instant}

pub data RuleType : Type 0 where
  self_destruct merchant time category budget : RuleType

unfoldable pub RuleType-discrete : Discrete RuleType
RuleType-discrete = hlevel

abbrev pub type_is : RuleType → Option RuleType → Bool
type_is t none = false
type_is t (some u) = ite (RuleType-discrete t u) true false

-- A key of `categoryMccs`; a property that every object inherits (`constructor`, `toString`, …); any
-- other string.
pub data Category : Type 0 where
  travel_hotel travel food_restaurant dining groceries entertainment shopping electricity : Category
  inherited unlisted : ℕ → Category

-- What `categoryMccs[category]` is: nothing, a list of codes, or an inherited function or object,
-- which has no `includes`. A merchant category code is a number; one that is not four digits is any
-- other number.
pub data Codes : Type 0 where
  no_codes not_a_list : Codes
  codes : List ℕ → Codes

unfoldable pub category_mccs : Category → Codes
category_mccs travel_hotel = codes (7011 ∷ 4511 ∷ 4722 ∷ [])
category_mccs travel = codes (4511 ∷ 4722 ∷ 4111 ∷ 4121 ∷ [])
category_mccs food_restaurant = codes (5812 ∷ 5814 ∷ [])
category_mccs dining = codes (5812 ∷ 5814 ∷ [])
category_mccs groceries = codes (5411 ∷ [])
category_mccs entertainment = codes (7832 ∷ 7922 ∷ 7996 ∷ 7999 ∷ [])
category_mccs shopping = codes (5311 ∷ 5399 ∷ 5699 ∷ [])
category_mccs electricity = codes (4900 ∷ [])
category_mccs (inherited n) = not_a_list
category_mccs (unlisted n) = no_codes

-- Values of `Record<string, unknown>`, as far as `validateRules` tells them apart. `undefined` is the
-- `none` of a field below.
pub data Item : Type 0 where
  text : Text → Item
  not_a_text : Item

pub data RawType : Type 0 where
  listed : RuleType → RawType
  not_listed : RawType

pub data RawNumber : Type 0 where
  integer : ℤ → RawNumber
  not_an_integer : RawNumber

pub data RawList (A : Type 0) : Type 0 where
  array : List A → RawList A
  not_an_array : RawList A

pub data RawFlag : Type 0 where
  flag : Bool → RawFlag
  not_a_flag : RawFlag

-- The argument of `validateRules`. `unsupported_key`: some key is none of those listed in the code.
-- `start` and `end` are taken as the text to which the pattern's `test` turns them.
pub record RawRules : Type 0 where
  pub unsupported_key : Bool
  pub type : Option RawType
  pub max_spend_limit : Option Item
  pub monthly_limit : Option Item
  pub usage_limit : Option RawNumber
  pub start : Option Item
  pub end : Option Item
  pub merchant_ids : Option (RawList Item)
  pub pending_merchant_label : Option Item
  pub categories : Option (RawList Category)
  pub allow_top_up : Option RawFlag
  pub notify_half_spent : Option RawFlag
  pub notify_low_balance : Option RawFlag
  pub notify_budget_reached : Option RawFlag

-- `interface CardRules`, with the amounts and instants that its strings write.
pub record CardRules : Type 0 where
  pub type : Option RuleType
  pub max_spend_limit : Option ℕ
  pub monthly_limit : Option ℕ
  pub usage_limit : ℕ
  pub start : ℕ
  pub end : ℕ
  pub merchant_ids : List Text
  pub categories : List Category
  pub allow_top_up : Option Bool
  pub notify_half_spent : Option Bool
  pub notify_low_balance : Option Bool
  pub notify_budget_reached : Option Bool

abbrev pub is_blank? : Option Item → Bool
is_blank? (some (text t)) = is_blank t
is_blank? _ = true

unfoldable pub bad_label : Option Item → Bool
bad_label none = false
bad_label (some (text t)) = is_blank t || ltb 100 (length t)
bad_label (some not_a_text) = true

unfoldable pub bad_type : Option RawType → Bool
bad_type (some not_listed) = true
bad_type _ = false

unfoldable pub bad_limit : Option Item → Bool
bad_limit none = false
bad_limit (some not_a_text) = true
bad_limit (some (text t)) = elim (match_amount t) [ none ↦ true | some n ↦ leb n 0 ]

-- `!Number.isSafeInteger(limit) || limit < 1`
unfoldable pub bad_usage_limit : Option RawNumber → Bool
bad_usage_limit (some (integer (pos n))) = leb (2 ^ 53) n || ltb n 1
bad_usage_limit _ = true

unfoldable pub bad_merchant_id : Item → Bool
bad_merchant_id (text t) = is_blank t || ltb 100 (length t)
bad_merchant_id not_a_text = true

unfoldable pub bad_merchants : Option (RawList Item) → Option Item → Bool
unfolding bad_merchant_id
bad_merchants (some (array ids)) label = is_empty ids && is_blank? label || any bad_merchant_id ids
bad_merchants _ label = true

-- `!categoryMccs[category]`
unfoldable pub is_unlisted : Category → Bool
unfolding category_mccs
is_unlisted c = elim (category_mccs c) [ no_codes ↦ true | _ ↦ false ]

unfoldable pub bad_categories : Option (RawList Category) → Bool
unfolding is_unlisted
bad_categories (some (array cs)) = is_empty cs || any is_unlisted cs
bad_categories _ = true

unfoldable pub bad_flag : Option RawFlag → Bool
bad_flag (some not_a_flag) = true
bad_flag _ = false

abbrev pub raw_type : Option RawType → Option RuleType
raw_type (some (listed t)) = some t
raw_type _ = none

abbrev pub limit_of : Option Item → Option ℕ
limit_of (some (text t)) = match_amount t
limit_of _ = none

abbrev pub usage_of : Option RawNumber → ℕ
usage_of (some (integer (pos n))) = n
usage_of _ = 0

abbrev pub texts_of : List Item → List Text
texts_of [] = []
texts_of (text t ∷ is) = t ∷ texts_of is
texts_of (not_a_text ∷ is) = texts_of is

abbrev pub merchants_of : Option (RawList Item) → List Text
merchants_of (some (array is)) = texts_of is
merchants_of _ = []

abbrev pub categories_of : Option (RawList Category) → List Category
categories_of (some (array cs)) = cs
categories_of _ = []

abbrev pub flag_of : Option RawFlag → Option Bool
flag_of (some (flag b)) = some b
flag_of _ = none

-- `parse` is `Date.parse` (`none` where it is not finite): which days of a month it takes is the
-- engine's choice.
module _ (parse : Text → Option ℕ) where
  unfoldable pub instant_of : Option Item → Option ℕ
  instant_of (some (text t)) = if matches_instant t then parse t else none
  instant_of _ = none

  unfoldable pub bad_window : Option ℕ → Option ℕ → Bool
  bad_window (some start) (some end) = leb end start
  bad_window _ _ = true

  abbrev pub instant_or : Option ℕ → ℕ
  instant_or none = 0
  instant_or (some t) = t

  -- `raw as CardRules`
  unfoldable pub rules_of : RawRules → CardRules
  unfolding instant_of
  rules_of r = record {
    type = raw_type r.type;
    max_spend_limit = limit_of r.max_spend_limit;
    monthly_limit = limit_of r.monthly_limit;
    usage_limit = usage_of r.usage_limit;
    start = instant_or (instant_of r.start);
    end = instant_or (instant_of r.end);
    merchant_ids = merchants_of r.merchant_ids;
    categories = categories_of r.categories;
    allow_top_up = flag_of r.allow_top_up;
    notify_half_spent = flag_of r.notify_half_spent;
    notify_low_balance = flag_of r.notify_low_balance;
    notify_budget_reached = flag_of r.notify_budget_reached;
  }

  unfoldable pub validate_rules : RawRules → Result CardRules
  validate_rules r = do
    let type_is' = λ (t : RuleType). type_is t (raw_type r.type)
    throw_if r.unsupported_key (bad_request "Unsupported rule field")
    throw_if (bad_label r.pending_merchant_label) (bad_request "Invalid merchant setup label")
    throw_if (bad_type r.type) (bad_request "Unsupported rule")
    throw_if (bad_limit r.max_spend_limit || bad_limit r.monthly_limit)
        (bad_request "Invalid spending limit")
    throw_if (type_is' self_destruct && bad_usage_limit r.usage_limit)
        (bad_request "Invalid usage limit")
    throw_if (type_is' time && bad_window (instant_of r.start) (instant_of r.end))
        (bad_request "Invalid time window")
    throw_if (type_is' merchant && bad_merchants r.merchant_ids r.pending_merchant_label)
        (bad_request "Verified merchant identifiers are required")
    throw_if (type_is' category && bad_categories r.categories) (bad_request "Unsupported category")
    throw_if (type_is' budget && not (is_some r.monthly_limit))
        (bad_request "Monthly budget is required")
    throw_if
        (bad_flag r.allow_top_up
          || bad_flag r.notify_half_spent
          || bad_flag r.notify_low_balance
          || bad_flag r.notify_budget_reached)
        (bad_request "Invalid card preference")
    ok (rules_of r)
