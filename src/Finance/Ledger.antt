-- ===== src/Finance/Ledger.antt =====
-- src/modules/finance/ledger.service.ts: double-entry postings over cached account balances.
pub mod Sums
pub mod Accounts
pub mod Journals
mod Tests
use Prim.Native.String.{String}
use bonde_backend.Common.{
  ℕ, suc, Bool, true, false, not, ◌&&◌, ◌||◌, Option, none, some, List, [], ◌∷◌, ite, ltb, leb,
  is_some, same_id, length, if◌then◌else◌, ◌==◌,
}
use bonde_backend.Common.Int.{ℤ, pos, ◌+ℤ◌, negate, ltb_ℤ, leb_ℤ, is_zero}
use bonde_backend.Common.Table.{find_first, count_where, update_many}
use bonde_backend.Common.Http.{
  Exception, bad_request, constraint_violation, Result, ok, err, ◌>>=◌, ◌>>◌, throw_if,
}
use bonde_backend.Finance.Types.{
  Prefix-discrete, Reference, Currency, Currency-discrete, currency_of, AccountKey,
  AccountKey-discrete,
}

-- The decimals that reach a posting. `post` refuses a value that is not finite or has more than two
-- decimal places before it computes with it; any other is a number of hundredths.
pub data Decimal : Type 0 where
  hundredths : ℤ → Decimal
  not_a_money_value : Decimal

pub data Kind : Type 0 where
  wallet card hold clearing fees expense revenue : Kind

unfoldable pub Kind-discrete : Discrete Kind
Kind-discrete = hlevel

pub record Posting : Type 0 where
  pub key : AccountKey
  pub currency : Currency
  pub amount : Decimal
  pub user_id : Option ℕ
  pub kind : Kind

-- A posting in `merged`, whose amount has been checked.
pub record Line : Type 0 where
  pub key : AccountKey
  pub currency : Currency
  pub amount : ℤ
  pub user_id : Option ℕ
  pub kind : Kind

-- Rows of `finance_accounts`, `finance_journals` and `finance_entries`.
pub record Account : Type 0 where
  pub key : AccountKey
  pub currency : Currency
  pub kind : Kind
  pub user_id : Option ℕ
  pub balance : ℤ

pub record Journal : Type 0 where
  pub id : ℕ
  pub reference : Reference

pub record Entry : Type 0 where
  pub journal_id : ℕ
  pub account_key : AccountKey
  pub amount : ℤ

pub record Store : Type 0 where
  pub accounts : List Account
  pub journals : List Journal
  pub entries : List Entry

abbrev pub key_eq : AccountKey → AccountKey → Bool
key_eq a b = ite (AccountKey-discrete a b) true false

abbrev pub currency_eq : Currency → Currency → Bool
currency_eq a b = ite (Currency-discrete a b) true false

abbrev pub kind_eq : Kind → Kind → Bool
kind_eq a b = ite (Kind-discrete a b) true false

-- `findUnique({ where: { key } })` on the accounts
unfoldable pub find_account : AccountKey → List Account → Option Account
find_account k = find_first (λ a. key_eq a.key k)

-- `sums.set(currency, (sums.get(currency) ?? 0).add(amount))`; a Map keeps its order of insertion.
unfoldable pub add_sum : Currency → ℤ → List (Currency × ℤ) → List (Currency × ℤ)
add_sum c x [] = (c, pos 0 +ℤ x) ∷ []
add_sum c x ((d, y) ∷ sums) =
    if currency_eq d c then (d, y +ℤ x) ∷ sums else (d, y) ∷ add_sum c x sums

unfoldable pub find_line : AccountKey → List Line → Option Line
find_line k [] = none
find_line k (l ∷ ls) = if key_eq l.key k then some l else find_line k ls

-- `merged.set(line.key, line)`
unfoldable pub put_line : Line → List Line → List Line
put_line l [] = l ∷ []
put_line l (m ∷ ls) = if key_eq m.key l.key then l ∷ ls else m ∷ put_line l ls

abbrev amount_before : Option Line → ℤ
amount_before none = pos 0
amount_before (some l) = l.amount

abbrev mismatch : Option Line → Posting → Bool
mismatch none p = false
mismatch (some l) p = not (currency_eq l.currency p.currency) || not (same_id l.user_id p.user_id)

-- `{ ...line, amount: (existing?.amount ?? 0).add(line.amount) }`
abbrev merged_line : Posting → ℤ → Option Line → Line
merged_line p x existing = record {
  key = p.key;
  currency = p.currency;
  amount = amount_before existing +ℤ x;
  user_id = p.user_id;
  kind = p.kind;
}

-- The check of a line's amount.
unfoldable pub posting_amount : Decimal → Result ℤ
posting_amount (hundredths x) = ok x
posting_amount not_a_money_value = err (bad_request "Invalid posting")

-- The first loop of `post`.
unfoldable pub collect :
    List Posting → List (Currency × ℤ) → List Line → Result (List (Currency × ℤ) × List Line)
collect [] sums merged = ok (sums, merged)
collect (p ∷ ps) sums merged = do
  _ ← currency_of p.currency
  x ← posting_amount p.amount
  throw_if (mismatch (find_line p.key merged) p) (bad_request "Account mismatch")
  collect ps (add_sum p.currency x sums)
      (put_line (merged_line p x (find_line p.key merged)) merged)

-- `[...sums.values()].some((sum) => !sum.isZero())`
unfoldable pub some_nonzero : List (Currency × ℤ) → Bool
some_nonzero [] = false
some_nonzero ((c, x) ∷ sums) = not (is_zero x) || some_nonzero sums

-- `financeAccount.upsert` with an empty update
unfoldable pub upsert_account : Line → List Account → List Account
upsert_account l accounts =
    if is_some (find_account l.key accounts)
    then accounts
    else record {
      key = l.key;
      currency = l.currency;
      kind = l.kind;
      user_id = l.user_id;
      balance = pos 0;
    }
      ∷ accounts

-- The `where` of `updateMany`; its last conjunct is there for a user's debit alone.
unfoldable pub may_change : Line → Account → Bool
may_change l a =
    key_eq a.key l.key
    && currency_eq a.currency l.currency
    && same_id a.user_id l.user_id
    && kind_eq a.kind l.kind
    && (if is_some l.user_id && ltb_ℤ l.amount (pos 0)
        then leb_ℤ (negate l.amount) a.balance
        else true)

abbrev pub increment : Line → Account → Account
increment l a = record a { balance = a.balance +ℤ l.amount }

-- One round of the second loop.
unfoldable pub apply_line : ℕ → Line → Store → Result Store
apply_line journal l s =
    let accounts : List Account = upsert_account l s.accounts in
    if count_where (may_change l) accounts == 0
    then err (bad_request "Insufficient available funds")
    else ok (record {
      accounts = update_many (may_change l) (increment l) accounts;
      journals = s.journals;
      entries = record { journal_id = journal; account_key = l.key; amount = l.amount } ∷ s.entries;
    })

unfoldable pub apply_lines : ℕ → List Line → Store → Result Store
apply_lines journal [] s = ok s
apply_lines journal (l ∷ ls) s = do s' ← apply_line journal l s; apply_lines journal ls s'

abbrev pub reference_eq : Reference → Reference → Bool
reference_eq a b = ite (Prefix-discrete a.prefix b.prefix) (a.id == b.id) false

-- `financeJournal.findUnique({ where: { reference } })`
abbrev pub has_journal : Reference → Store → Bool
has_journal reference s =
    is_some (find_first (λ (j : Journal). reference_eq j.reference reference) s.journals)

-- `financeJournal.create`: `reference` is unique in the schema.
unfoldable pub create_journal : ℕ → Reference → Store → Result Store
create_journal id reference s = do
  throw_if (is_some (find_first (λ (j : Journal). reference_eq j.reference reference) s.journals))
      constraint_violation
  ok (record s { journals = record { id = id; reference = reference } ∷ s.journals })

-- `before a b` says that `a.localeCompare(b) < 0`, which the runtime's collation decides; `id` is
-- what `randomUUID()` returns. A throw rolls the caller's transaction back, so no store is kept.
module _ (before : AccountKey → AccountKey → Bool) where
  -- `sort` is stable: a line goes behind those that precede it, and before all others.
  unfoldable pub insert_line : Line → List Line → List Line
  insert_line l [] = l ∷ []
  insert_line l (m ∷ ls) = if before m.key l.key then m ∷ insert_line l ls else l ∷ m ∷ ls

  unfoldable pub sort_lines : List Line → List Line
  unfolding insert_line
  sort_lines [] = []
  sort_lines (l ∷ ls) = insert_line l (sort_lines ls)

  unfoldable pub post : ℕ → Reference → List Posting → Store → Result Store
  post id reference lines s = do
    (sums, merged) ← collect lines [] []
    throw_if (ltb (length lines) 2 || some_nonzero sums) (bad_request "Unbalanced journal")
    s' ← create_journal id reference s
    apply_lines id (sort_lines merged) s'
