-- ===== src/Finance/Amount/RoundTrip.antt =====
-- Printing an amount and reading it back.
use bonde_backend.Common.{
  ℕ, zero, suc, ◌+◌, ◌-◌, ◌*◌, ◌/◌, ◌%◌, ◌^◌, ◌<◌, ◌≤◌, ◌≡◌, refl, Bool, true, some, [], ◌∷◌, ltb,
  length, arith, All, ◌⊎◌, inl, inr, Bool-cases, Option-cases, ◌∙◌, lt→ltb, ap,
}
use native.Mathlib.Nat.{pow-suc, mul-le-mul_right}
use bonde_backend.Common.Http.{ok}
use bonde_backend.Common.Text.{Text, is_digit, span_digits}
use bonde_backend.Finance.Amount.{
  digits_value, fraction, match_amount, amount_of, show_digits, money,
}

-- Reading what `show_digits` has put in front of a text that begins with no digit.
record Shown (n fuel : ℕ) (whole rest : Text) (shown : Text × Text) : Type 0 where
  split : shown.1 ≡ rest
  reads : digits_value 0 shown.0 ≡ digits_value n whole
  short : length shown.0 ≤ fuel + length whole
  some_digit : 1 ≤ length shown.0

span_digits-cons :
    (d : ℕ) (acc whole rest : Text)
    → d < 10
    → span_digits acc ≡ (whole, rest)
    → span_digits ((d + b'0') ∷ acc) ≡ ((d + b'0') ∷ whole, rest)
unfolding span_digits
span_digits-cons d acc whole rest h e = rw e (ground arith)

one_digit :
    (n fuel : ℕ) (acc whole rest : Text)
    → n < 10
    → span_digits acc ≡ (whole, rest)
    → Shown n (suc fuel) whole rest (span_digits ((n + b'0') ∷ acc))
unfolding digits_value
one_digit n fuel acc whole rest h e = rw (span_digits-cons n acc whole rest h e) (record {
  split = refl;
  reads = ap (λ v. digits_value v whole) (omega arith);
  short = omega arith;
  some_digit = omega arith;
})

tenth : (n fuel : ℕ) → n < 10 ^ suc (suc fuel) → n / 10 < 10 ^ suc fuel
tenth n fuel h = omega (arith, pow-suc 10 (suc fuel))

show_digits-Shown :
    (fuel n : ℕ) (acc whole rest : Text)
    → n < 10 ^ suc fuel
    → span_digits acc ≡ (whole, rest)
    → Shown n (suc fuel) whole rest (span_digits (show_digits (suc fuel) n acc))
unfolding show_digits digits_value
show_digits-Shown zero n acc whole rest h e = rw (lt→ltb n 10 h) (one_digit n 0 acc whole rest h e)
show_digits-Shown (suc fuel) n acc whole rest h e = elim (Bool-cases (ltb n 10)) [
  | inl small ↦ rw small (one_digit n (suc fuel) acc whole rest (ground arith) e)
  | inr large ↦
      let more =
        show_digits-Shown fuel (n / 10) ((n % 10 + b'0') ∷ acc) ((n % 10 + b'0') ∷ whole) rest
          (tenth n fuel h) (span_digits-cons (n % 10) acc whole rest (omega arith) e) in
      rw large (record {
        split = more.split;
        reads = more.reads ∙ ap (λ v. digits_value v whole) (omega arith);
        short = omega (arith, more.short);
        some_digit = more.some_digit;
      })
]

abbrev point : ℕ → Text
point n = b'.' ∷ (n % 100 / 10 + b'0') ∷ (n % 10 + b'0') ∷ []

money-Shown : (n : ℕ) → n < 10 ^ 14 → Shown (n / 100) 12 [] (point n) (span_digits (money n))
unfolding money span_digits
money-Shown n h = show_digits-Shown 11 (n / 100) (point n) [] (point n) (omega arith) refl

fraction-money : (n : ℕ) → fraction (point n) ≡ some (n % 100)
unfolding fraction
fraction-money n = ground arith

match_amount-money : (n : ℕ) → n < 10 ^ 14 → match_amount (money n) ≡ some n
unfolding match_amount digits_value
match_amount-money n h =
    let m = money-Shown n h in
    ground (arith, m.split, m.reads, m.short, m.some_digit, fraction-money n)

-- An amount below 10 ^ 14 hundredths, printed with two decimals, is read back as itself; zero is read
-- back only where the caller allows it.
pub amount_of-money :
    (n : ℕ) (allow_zero : Bool)
    → n < 10 ^ 14
    → (0 < n) ⊎ (allow_zero ≡ true)
    → amount_of (money n) allow_zero ≡ ok n
unfolding amount_of
amount_of-money n allow_zero h nonzero = ground (arith, match_amount-money n h)

abbrev IsDigits : Text → Type 0
IsDigits = All (λ c. is_digit c ≡ true)

span_digits-IsDigits : (t : Text) → IsDigits (span_digits t).0
unfolding span_digits
span_digits-IsDigits [] = tt
span_digits-IsDigits (c ∷ t) = ground (arith, span_digits-IsDigits t)

one_digit_more : (v d p x : ℕ) → d ≤ 9 → x < (v * 10 + d + 1) * p → x < (v + 1) * (p * 10)
one_digit_more v d p x h lt = grind (arith, mul-le-mul_right p h)

digits_value-lt :
    (k v : ℕ) (t : Text) → IsDigits t → length t ≤ k → digits_value v t < (v + 1) * 10 ^ k
unfolding digits_value
digits_value-lt zero v [] ds h = omega arith
digits_value-lt zero v (c ∷ t) ds h = elim h [ ]
digits_value-lt (suc k) v [] ds h =
    rw (pow-suc 10 k) (grind (arith, digits_value-lt k v [] tt (omega arith)))
digits_value-lt (suc k) v (c ∷ t) ds h = rw (pow-suc 10 k) (
    one_digit_more v (c - b'0') (10 ^ k) _ (ground arith)
      (digits_value-lt k (v * 10 + (c - b'0')) t ds.1 (omega arith)))

fraction-lt : (t : Text) (f : ℕ) → fraction t ≡ some f → f < 100
unfolding fraction
fraction-lt [] f h = ground arith
fraction-lt (p ∷ []) f h = cc
fraction-lt (p ∷ c ∷ []) f h = ground arith
fraction-lt (p ∷ c ∷ d ∷ []) f h = ground arith
fraction-lt (p ∷ c ∷ d ∷ e ∷ t) f h = cc

match_amount-lt : (t : Text) (n : ℕ) → match_amount t ≡ some n → n < 10 ^ 14
unfolding match_amount
match_amount-lt t n h =
    let (whole, rest) = span_digits t in
    elim (Option-cases (fraction rest)) [
      | inl malformed ↦ ground arith
      | inr (f, e) ↦ ground (
        arith,
        fraction-lt rest f e,
        span_digits-IsDigits t,
        digits_value-lt 12 0 whole (span_digits-IsDigits t),
      )
    ]

-- Whatever text `amountOf` accepts stands for less than 10 ^ 14 hundredths, and, unless zero is
-- allowed, for more than none.
pub amount_of_bounds :
    (t : Text) (allow_zero : Bool) (n : ℕ)
    → amount_of t allow_zero ≡ ok n
    → (n < 10 ^ 14) × ((0 < n) ⊎ (allow_zero ≡ true))
unfolding amount_of
amount_of_bounds t allow_zero n h = ground (arith, match_amount-lt t n)
