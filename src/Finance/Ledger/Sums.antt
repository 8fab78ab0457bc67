-- ===== src/Finance/Ledger/Sums.antt =====
-- The amounts of a list of postings, of merged lines, of accounts and of entries, summed by currency
-- and by account, and how the first loop of `post` keeps these sums.
use bonde_backend.Common.{◌≡◌, refl, Bool, false, List, [], ◌∷◌, arith, if◌then◌else◌}
use bonde_backend.Common.Int.{ℤ, pos, ◌+ℤ◌, int_laws}
use bonde_backend.Common.Http.{ok, ok_of_bind, throw_if-ok}
use bonde_backend.Finance.Types.{Currency, currency_of, AccountKey}
use bonde_backend.Finance.Ledger.{
  Decimal, hundredths, not_a_money_value, Posting, Line, Account, Entry, key_eq, currency_eq,
  add_sum, find_line, put_line, mismatch, merged_line, posting_amount, collect, some_nonzero,
  sort_lines, insert_line,
}

-- The value of a posting's amount.
abbrev pub value : Decimal → ℤ
value (hundredths x) = x
value not_a_money_value = pos 0

-- The net amount that a list of postings moves in a currency, and to an account.
abbrev pub net : Currency → List Posting → ℤ
net c [] = pos 0
net c (p ∷ ps) = if currency_eq p.currency c then value p.amount +ℤ net c ps else net c ps

abbrev pub net_to : AccountKey → List Posting → ℤ
net_to k [] = pos 0
net_to k (p ∷ ps) = if key_eq p.key k then value p.amount +ℤ net_to k ps else net_to k ps

abbrev pub line_total : Currency → List Line → ℤ
line_total c [] = pos 0
line_total c (l ∷ ls) =
    if currency_eq l.currency c then l.amount +ℤ line_total c ls else line_total c ls

abbrev pub line_sum : AccountKey → List Line → ℤ
line_sum k [] = pos 0
line_sum k (l ∷ ls) = if key_eq l.key k then l.amount +ℤ line_sum k ls else line_sum k ls

-- All money that the accounts hold in a currency.
abbrev pub total : Currency → List Account → ℤ
total c [] = pos 0
total c (a ∷ accounts) =
    if currency_eq a.currency c then a.balance +ℤ total c accounts else total c accounts

abbrev pub entry_sum : AccountKey → List Entry → ℤ
entry_sum k [] = pos 0
entry_sum k (e ∷ es) = if key_eq e.account_key k then e.amount +ℤ entry_sum k es else entry_sum k es

-- The entry of a currency in `sums`, 0 if there is none.
abbrev pub sum_of : Currency → List (Currency × ℤ) → ℤ
sum_of c [] = pos 0
sum_of c ((d, y) ∷ sums) = if currency_eq d c then y else sum_of c sums

put_line-total :
    (c : Currency) (p : Posting) (x : ℤ) (ls : List Line)
    → mismatch (find_line p.key ls) p ≡ false
    → line_total c (put_line (merged_line p x (find_line p.key ls)) ls)
      ≡ line_total c ls +ℤ (if currency_eq p.currency c then x else pos 0)
unfolding find_line put_line
put_line-total c p x [] h = grind int_laws
put_line-total c p x (l ∷ ls) h = grind (int_laws, put_line-total c p x ls)

put_line-sum :
    (k : AccountKey) (p : Posting) (x : ℤ) (ls : List Line)
    → line_sum k (put_line (merged_line p x (find_line p.key ls)) ls)
      ≡ line_sum k ls +ℤ (if key_eq p.key k then x else pos 0)
unfolding find_line put_line
put_line-sum k p x [] = grind int_laws
put_line-sum k p x (l ∷ ls) = grind (int_laws, put_line-sum k p x ls)

sum_of-add_sum :
    (c d : Currency) (x : ℤ) (sums : List (Currency × ℤ))
    → sum_of c (add_sum d x sums) ≡ sum_of c sums +ℤ (if currency_eq d c then x else pos 0)
unfolding add_sum
sum_of-add_sum c d x [] = grind int_laws
sum_of-add_sum c d x (e ∷ sums) = grind (int_laws, sum_of-add_sum c d x sums)

pub sum_of_nonzero :
    (c : Currency) (sums : List (Currency × ℤ)) → some_nonzero sums ≡ false → sum_of c sums ≡ pos 0
unfolding some_nonzero
sum_of_nonzero c [] h = refl
sum_of_nonzero c ((d, y) ∷ sums) h = grind (int_laws, sum_of_nonzero c sums)

-- What the first loop has accumulated when it ends.
pub record Collected (ps : List Posting) (sums sums' : List (Currency × ℤ))
    (merged merged' : List Line) : Type 0 where
  pub in_sums : (c : Currency) → sum_of c sums' ≡ sum_of c sums +ℤ net c ps
  pub in_lines : (c : Currency) → line_total c merged' ≡ line_total c merged +ℤ net c ps
  pub by_key : (k : AccountKey) → line_sum k merged' ≡ line_sum k merged +ℤ net_to k ps

posting_amount-value : (d : Decimal) {x : ℤ} → posting_amount d ≡ ok x → x ≡ value d
unfolding posting_amount
posting_amount-value d h = ground arith

Collected-cons :
    (p : Posting) (ps : List Posting) (sums sums' : List (Currency × ℤ))
    (merged merged' : List Line)
    → mismatch (find_line p.key merged) p ≡ false
    → Collected ps
        (add_sum p.currency (value p.amount) sums)
        sums'
        (put_line (merged_line p (value p.amount) (find_line p.key merged)) merged)
        merged'
    → Collected (p ∷ ps) sums sums' merged merged'
Collected-cons p ps sums sums' merged merged' same h = record {
  in_sums = λ c. grind (int_laws, h.in_sums c, sum_of-add_sum c p.currency (value p.amount) sums);
  in_lines = λ c. grind (int_laws, h.in_lines c, put_line-total c p (value p.amount) merged same);
  by_key = λ k. grind (int_laws, h.by_key k, put_line-sum k p (value p.amount) merged);
}

pub collect-Collected :
    (ps : List Posting) (sums sums' : List (Currency × ℤ)) (merged merged' : List Line)
    → collect ps sums merged ≡ ok (sums', merged')
    → Collected ps sums sums' merged merged'
unfolding collect
collect-Collected [] sums sums' merged merged' h = record {
  in_sums = λ c. grind int_laws;
  in_lines = λ c. grind int_laws;
  by_key = λ k. grind int_laws;
}
collect-Collected (p ∷ ps) sums sums' merged merged' h =
    let (_, _, h₁) = ok_of_bind (currency_of p.currency) _ h in
    let (x, amount, h₂) = ok_of_bind (posting_amount p.amount) _ h₁ in
    let (same, h₃) = throw_if-ok (mismatch (find_line p.key merged) p) _ _ h₂ in
    Collected-cons p ps sums sums' merged merged' same
      (collect-Collected ps _ sums' _ merged' (rw (posting_amount-value p.amount amount) at h₃))

-- Sorting moves no money.
insert_line-total :
    (before : AccountKey → AccountKey → Bool) (c : Currency) (l : Line) (ls : List Line)
    → line_total c (insert_line before l ls) ≡ line_total c (l ∷ ls)
unfolding insert_line
insert_line-total before c l [] = refl
insert_line-total before c l (m ∷ ls) = grind (int_laws, insert_line-total before c l ls)

insert_line-sum :
    (before : AccountKey → AccountKey → Bool) (k : AccountKey) (l : Line) (ls : List Line)
    → line_sum k (insert_line before l ls) ≡ line_sum k (l ∷ ls)
unfolding insert_line
insert_line-sum before k l [] = refl
insert_line-sum before k l (m ∷ ls) = grind (int_laws, insert_line-sum before k l ls)

pub sort_lines-total :
    (before : AccountKey → AccountKey → Bool) (c : Currency) (ls : List Line)
    → line_total c (sort_lines before ls) ≡ line_total c ls
unfolding sort_lines
sort_lines-total before c [] = refl
sort_lines-total before c (l ∷ ls) =
    grind
      (int_laws, insert_line-total before c l (sort_lines before ls), sort_lines-total before c ls)

pub sort_lines-sum :
    (before : AccountKey → AccountKey → Bool) (k : AccountKey) (ls : List Line)
    → line_sum k (sort_lines before ls) ≡ line_sum k ls
unfolding sort_lines
sort_lines-sum before k [] = refl
sort_lines-sum before k (l ∷ ls) =
    grind (int_laws, insert_line-sum before k l (sort_lines before ls), sort_lines-sum before k ls)
