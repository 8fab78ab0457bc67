-- ===== src/Finance/Instant.antt =====
-- The pattern for `start` and `end` in `validateRules` (src/modules/finance/card-policy.ts).
use bonde_backend.Common.{
  ℕ, Bool, true, false, ◌&&◌, ◌||◌, Option, none, some, List, [], ◌∷◌, leb, ◌==◌, length,
  if◌then◌else◌, is_empty,
}
use bonde_backend.Common.Text.{Text, is_digit, span_digits}

-- A character of the pattern for an instant: `\d` or itself.
pub data Class : Type 0 where
  digit : Class
  char : ℕ → Class

abbrev pub fits : Class → ℕ → Bool
fits digit c = is_digit c
fits (char d) c = d == c

-- What follows a prefix that fits the classes.
unfoldable pub strip : List Class → Text → Option Text
strip [] t = some t
strip (k ∷ ks) [] = none
strip (k ∷ ks) (c ∷ t) = let rest = strip ks t in if fits k c then rest else none

abbrev pub is_end : Option Text → Bool
is_end (some []) = true
is_end _ = false

-- `(?:Z|[+-]\d{2}:\d{2})$`
unfoldable pub is_zone : Text → Bool
unfolding strip
is_zone [] = false
is_zone (c ∷ t) =
    c == b'Z' && is_empty t
    || (c == b'+' || c == b'-') && is_end (strip (digit ∷ digit ∷ char b':' ∷ digit ∷ digit ∷ []) t)

-- `(?:\.\d{1,3})?` and the zone
unfoldable pub is_tail : Text → Bool
unfolding is_zone span_digits
is_tail [] = false
is_tail (c ∷ t) =
    let (ds, rest) = span_digits t in
    if c == b'.' then leb 1 (length ds) && leb (length ds) 3 && is_zone rest else is_zone (c ∷ t)

abbrev pub date_and_time : List Class
date_and_time =
    digit
    ∷ digit
    ∷ digit
    ∷ digit
    ∷ char b'-'
    ∷ digit
    ∷ digit
    ∷ char b'-'
    ∷ digit
    ∷ digit
    ∷ char b'T'
    ∷ digit
    ∷ digit
    ∷ char b':'
    ∷ digit
    ∷ digit
    ∷ char b':'
    ∷ digit
    ∷ digit
    ∷ []

unfoldable pub matches_instant : Text → Bool
unfolding strip is_tail
matches_instant t = elim (strip date_and_time t) [ none ↦ false | some rest ↦ is_tail rest ]
