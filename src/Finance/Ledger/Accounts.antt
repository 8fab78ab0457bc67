-- ===== src/Finance/Ledger/Accounts.antt =====
-- The invariant of the ledger's tables, and how one round of the second loop of `post` changes them.
use bonde_backend.Common.{
  ℕ, ◌≡◌, refl, true, none, List, [], ◌∷◌, arith, if◌then◌else◌, inl, inr, Bool-cases, Option-cases,
  ◌⊎◌, All, ◌≢◌,
}
use mathlib.Core.Path.{subst}
use bonde_backend.Common.Int.{ℤ, pos, ◌+ℤ◌, ◌≤ℤ◌, int_laws}
use bonde_backend.Common.Table.{count_where, update_many}
use bonde_backend.Common.Http.{ok, ok_of_bind}
use bonde_backend.Finance.Types.{Currency, AccountKey}
use bonde_backend.Finance.Ledger.{
  Line, Account, Store, key_eq, currency_eq, find_account, upsert_account, may_change, increment,
  apply_line, apply_lines,
}
use bonde_backend.Finance.Ledger.Sums.{total, entry_sum, line_total, line_sum}

-- The balance of an account, 0 if it is not there.
abbrev pub balance_of : AccountKey → List Account → ℤ
balance_of k [] = pos 0
balance_of k (a ∷ accounts) = if key_eq a.key k then a.balance else balance_of k accounts

abbrev pub DistinctKeys : List Account → Type 0
DistinctKeys [] = Unit
DistinctKeys (a ∷ accounts) = (find_account a.key accounts ≡ none) × DistinctKeys accounts

-- A user's account is never overdrawn; a system account may be.
abbrev pub IsSolvent : Account → Type 0
IsSolvent a = (a.user_id ≡ none) ⊎ (pos 0 ≤ℤ a.balance)

-- Keys are unique, no user's account is overdrawn, and every cached balance is the sum of the
-- account's entries.
pub record IsValid (s : Store) : Type 0 where
  pub distinct : DistinctKeys s.accounts
  pub solvent : All IsSolvent s.accounts
  pub reconciled : (k : AccountKey) → balance_of k s.accounts ≡ entry_sum k s.entries

-- Opening an account with no money.
balance_of_absent :
    (k : AccountKey) (accounts : List Account)
    → find_account k accounts ≡ none
    → balance_of k accounts ≡ pos 0
unfolding find_account
balance_of_absent k [] h = refl
balance_of_absent k (a ∷ accounts) h = ground (arith, balance_of_absent k accounts)

upsert_account-balance :
    (k : AccountKey) (l : Line) (accounts : List Account)
    → balance_of k (upsert_account l accounts) ≡ balance_of k accounts
unfolding upsert_account
upsert_account-balance k l accounts =
    ground (arith, balance_of_absent l.key accounts, Option-cases (find_account l.key accounts))

upsert_account-total :
    (c : Currency) (l : Line) (accounts : List Account)
    → total c (upsert_account l accounts) ≡ total c accounts
unfolding upsert_account
upsert_account-total c l accounts = grind int_laws

upsert_account-DistinctKeys :
    (l : Line) (accounts : List Account)
    → DistinctKeys accounts
    → DistinctKeys (upsert_account l accounts)
unfolding upsert_account
upsert_account-DistinctKeys l accounts h =
    ground (arith, Option-cases (find_account l.key accounts))

upsert_account-IsSolvent :
    (l : Line) (accounts : List Account)
    → All IsSolvent accounts
    → All IsSolvent (upsert_account l accounts)
unfolding upsert_account
upsert_account-IsSolvent l accounts h = ground arith

-- The update of the one account that a line names.
update_absent :
    (l : Line) (accounts : List Account)
    → find_account l.key accounts ≡ none
    → (update_many (may_change l) (increment l) accounts ≡ accounts)
      × (count_where (may_change l) accounts ≡ 0)
unfolding find_account may_change
update_absent l [] h = (refl, refl)
update_absent l (a ∷ accounts) h = ground (arith, update_absent l accounts)

update_find :
    (k : AccountKey) (l : Line) (accounts : List Account)
    → find_account k accounts ≡ none
    → find_account k (update_many (may_change l) (increment l) accounts) ≡ none
unfolding find_account
update_find k l [] h = refl
update_find k l (a ∷ accounts) h = ground (arith, update_find k l accounts)

update-DistinctKeys :
    (l : Line) (accounts : List Account)
    → DistinctKeys accounts
    → DistinctKeys (update_many (may_change l) (increment l) accounts)
update-DistinctKeys l [] h = tt
update-DistinctKeys l (a ∷ accounts) h =
    ground (arith, update_find a.key l accounts h.0, update-DistinctKeys l accounts h.1)

may_change-IsSolvent :
    (l : Line) (a : Account) → IsSolvent a → may_change l a ≡ true → IsSolvent (increment l a)
unfolding may_change
may_change-IsSolvent l a h m = grind int_laws

update-IsSolvent :
    (l : Line) (accounts : List Account)
    → All IsSolvent accounts
    → All IsSolvent (update_many (may_change l) (increment l) accounts)
update-IsSolvent l [] h = tt
update-IsSolvent l (a ∷ accounts) h =
    ground (arith, may_change-IsSolvent l a h.0, update-IsSolvent l accounts h.1)

may_change_names :
    (l : Line) (a : Account) → may_change l a ≡ true → (a.key ≡ l.key) × (a.currency ≡ l.currency)
unfolding may_change
may_change_names l a h = ground arith

-- A key that a line may not change here can be changed nowhere else.
find_of_count :
    (l : Line) (accounts : List Account)
    → count_where (may_change l) accounts ≢ 0
    → find_account l.key accounts ≢ none
find_of_count l accounts n h = n ((update_absent l accounts h).1)

update-balance :
    (k : AccountKey) (l : Line) (accounts : List Account)
    → DistinctKeys accounts
    → count_where (may_change l) accounts ≢ 0
    → balance_of k (update_many (may_change l) (increment l) accounts)
      ≡ balance_of k accounts +ℤ (if key_eq l.key k then l.amount else pos 0)
update-balance k l [] h n = absurd (n refl)
update-balance k l (a ∷ accounts) h n = elim (Bool-cases (may_change l a)) [
  | inl here ↦ grind (int_laws, may_change_names l a here, update_absent l accounts, h.0)
  | inr later ↦
      grind (int_laws, later, h.0, find_of_count l accounts, update-balance k l accounts h.1)
]

update-total :
    (c : Currency) (l : Line) (accounts : List Account)
    → DistinctKeys accounts
    → count_where (may_change l) accounts ≢ 0
    → total c (update_many (may_change l) (increment l) accounts)
      ≡ total c accounts +ℤ (if currency_eq l.currency c then l.amount else pos 0)
update-total c l [] h n = absurd (n refl)
update-total c l (a ∷ accounts) h n = elim (Bool-cases (may_change l a)) [
  | inl here ↦ grind (int_laws, may_change_names l a here, update_absent l accounts, h.0)
  | inr later ↦ grind (int_laws, later, update-total c l accounts h.1)
]

-- What applying lines that sum to `moved` in each currency, and to `added` for each account, does.
pub record Applied (added : AccountKey → ℤ) (moved : Currency → ℤ) (s s' : Store) : Type 0 where
  pub valid : IsValid s'
  pub balances : (k : AccountKey) → balance_of k s'.accounts ≡ balance_of k s.accounts +ℤ added k
  pub totals : (c : Currency) → total c s'.accounts ≡ total c s.accounts +ℤ moved c

abbrev pub line_amount_to : Line → AccountKey → ℤ
line_amount_to l k = if key_eq l.key k then l.amount else pos 0

abbrev pub line_amount_in : Line → Currency → ℤ
line_amount_in l c = if currency_eq l.currency c then l.amount else pos 0

module _ (j : ℕ) (l : Line) (s s' : Store) (v : IsValid s) (done : apply_line j l s ≡ ok s') where
  opened : List Account
  opened = upsert_account l s.accounts

  changed : count_where (may_change l) opened ≢ 0
  unfolding apply_line opened
  changed = ground arith

  accounts_after : s'.accounts ≡ update_many (may_change l) (increment l) opened
  unfolding apply_line opened
  accounts_after = ground arith

  entries_after :
      s'.entries ≡ record { journal_id = j; account_key = l.key; amount = l.amount } ∷ s.entries
  unfolding apply_line
  entries_after = ground arith

  apply_line-balance :
      (k : AccountKey) → balance_of k s'.accounts ≡ balance_of k s.accounts +ℤ line_amount_to l k
  unfolding opened
  apply_line-balance k = rw accounts_after (
      rw (update-balance k l opened (upsert_account-DistinctKeys l s.accounts v.distinct) changed)
        (rw upsert_account-balance))

  apply_line-total : (c : Currency) → total c s'.accounts ≡ total c s.accounts +ℤ line_amount_in l c
  unfolding opened
  apply_line-total c = rw accounts_after (
      rw (update-total c l opened (upsert_account-DistinctKeys l s.accounts v.distinct) changed)
        (rw upsert_account-total))

  apply_line-IsValid : IsValid s'
  unfolding opened
  apply_line-IsValid = record {
    distinct =
        rw accounts_after
          (update-DistinctKeys l opened (upsert_account-DistinctKeys l s.accounts v.distinct));
    solvent =
        rw accounts_after
          (update-IsSolvent l opened (upsert_account-IsSolvent l s.accounts v.solvent));
    reconciled = λ k. rw entries_after (grind (int_laws, apply_line-balance k, v.reconciled k));
  }

pub apply_line-Applied :
    (j : ℕ) (l : Line) (s s' : Store)
    → IsValid s
    → apply_line j l s ≡ ok s'
    → Applied (line_amount_to l) (line_amount_in l) s s'
apply_line-Applied j l s s' v done = record {
  valid = apply_line-IsValid j l s s' v done;
  balances = apply_line-balance j l s s' v done;
  totals = apply_line-total j l s s' v done;
}

pub apply_lines-Applied :
    (j : ℕ) (ls : List Line) (s s' : Store)
    → IsValid s
    → apply_lines j ls s ≡ ok s'
    → Applied (λ k. line_sum k ls) (λ c. line_total c ls) s s'
unfolding apply_lines
apply_lines-Applied j [] s s' v done =
    subst (λ t. Applied (λ k. pos 0) (λ c. pos 0) s t) (cc)
      (record { valid = v; balances = λ k. omega int_laws; totals = λ c. omega int_laws })
apply_lines-Applied j (l ∷ ls) s s' v done =
    let (mid, first, rest) = ok_of_bind (apply_line j l s) _ done in
    let one = apply_line-Applied j l s mid v first in
    let more = apply_lines-Applied j ls mid s' one.valid rest in
    record {
      valid = more.valid;
      balances = λ k. grind (int_laws, one.balances k, more.balances k);
      totals = λ c. grind (int_laws, one.totals c, more.totals c);
    }
