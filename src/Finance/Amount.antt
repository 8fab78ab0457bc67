-- ===== src/Finance/Amount.antt =====
-- `amountOf` of src/modules/finance/finance.types.ts and `money` of src/common/money/money.ts: amounts
-- as decimal text and as whole hundredths.
pub mod RoundTrip
mod Tests
use bonde_backend.Common.{
  ℕ, zero, suc, ◌+◌, ◌-◌, ◌*◌, ◌/◌, ◌%◌, Bool, true, false, ◌&&◌, Option, none, some, List, [], ◌∷◌,
  ◌++◌, leb, ltb, ◌==◌, length, if◌then◌else◌,
}
use bonde_backend.Common.Text.{Text, is_digit, span_digits, is_blank, text_eq}
use bonde_backend.Common.Http.{Result, ok, err, bad_request}

-- The number that digits write, behind the value `v` of those before them.
unfoldable pub digits_value : ℕ → Text → ℕ
digits_value v [] = v
digits_value v (c ∷ t) = digits_value (v * 10 + (c - b'0')) t

-- The optional group `(\.\d{1,2})?` up to the end, in hundredths.
unfoldable pub fraction : Text → Option ℕ
fraction [] = some 0
fraction (p ∷ []) = none
fraction (p ∷ c ∷ []) = if p == b'.' && is_digit c then some ((c - b'0') * 10) else none
fraction (p ∷ c ∷ d ∷ []) =
    if p == b'.' && is_digit c && is_digit d then some ((c - b'0') * 10 + (d - b'0')) else none
fraction (p ∷ c ∷ d ∷ e ∷ t) = none

abbrev add_whole : ℕ → Option ℕ → Option ℕ
add_whole n none = none
add_whole n (some f) = some (n * 100 + f)

-- `/^\d{1,12}(\.\d{1,2})?$/` and `new Decimal(value)`, in hundredths
unfoldable pub match_amount : Text → Option ℕ
unfolding span_digits
match_amount t =
    let (whole, rest) = span_digits t in
    if leb 1 (length whole) && leb (length whole) 12
    then add_whole (digits_value 0 whole) (fraction rest)
    else none

-- A matching text has no sign, so `lt(0)` never holds and `lte(0)` holds of zero alone.
unfoldable pub amount_of : Text → Bool → Result ℕ
amount_of t allow_zero = elim (match_amount t) [
  | none ↦ err (bad_request "Invalid amount")
  | some n ↦
      if (if allow_zero then ltb n 0 else leb n 0) then err (bad_request "Invalid amount") else ok n
]

-- The decimal digits of `n`, in front of `acc`; `fuel` bounds their number.
unfoldable pub show_digits : ℕ → ℕ → Text → Text
show_digits zero n acc = acc
show_digits (suc fuel) n acc =
    let more = show_digits fuel (n / 10) ((n % 10 + b'0') ∷ acc) in
    if ltb n 10 then (n + b'0') ∷ acc else more

-- `toFixed(2)` of `n` hundredths below 10 ^ 14
unfoldable pub money : ℕ → Text
money n = show_digits 12 (n / 100) (b'.' ∷ (n % 100 / 10 + b'0') ∷ (n % 10 + b'0') ∷ [])
