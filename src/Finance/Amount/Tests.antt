-- ===== src/Finance/Amount/Tests.antt =====
-- Amounts at concrete texts.
use bonde_backend.Common.{Bool, ◌≡◌, refl, ◌<◌, ◌^◌, ◌⊎◌, inl, true, false, [], ◌∷◌, arith}
use bonde_backend.Common.Text.{Text}
use bonde_backend.Common.Http.{ok, err, bad_request}
use bonde_backend.Finance.Amount.{
  fraction, digits_value, match_amount, show_digits, amount_of, money,
}
use bonde_backend.Finance.Amount.RoundTrip.{amount_of-money, amount_of_bounds}

-- "2500.5"
abbrev price : Text
price = b'2' ∷ b'5' ∷ b'0' ∷ b'0' ∷ b'.' ∷ b'5' ∷ []

price_lem : amount_of price false ≡ ok 250050
unfolding amount_of match_amount digits_value fraction
price_lem = refl

-- A sign, a third decimal and an empty fraction are refused.
no_sign : amount_of (b'-' ∷ b'5' ∷ []) true ≡ err (bad_request "Invalid amount")
unfolding amount_of match_amount digits_value fraction
no_sign = refl

no_empty_fraction : amount_of (b'5' ∷ b'.' ∷ []) true ≡ err (bad_request "Invalid amount")
unfolding amount_of match_amount digits_value fraction
no_empty_fraction = refl

money_lem : money 250050 ≡ b'2' ∷ b'5' ∷ b'0' ∷ b'0' ∷ b'.' ∷ b'5' ∷ b'0' ∷ []
unfolding money show_digits
money_lem = refl

amount_of-money_example : amount_of (money 250050) false ≡ ok 250050
amount_of-money_example = amount_of-money 250050 false (omega arith) (inl (omega arith))

amount_of_bounds_example : (250050 < 10 ^ 14) × ((0 < 250050) ⊎ (◌≡◌ {A = Bool} false true))
amount_of_bounds_example = amount_of_bounds price false 250050 price_lem
