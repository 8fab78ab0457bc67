-- ===== src/Finance/Operations/Returns.antt =====
-- The return of a closed card's allocation leaves nothing on the card.
use bonde_backend.Common.Table.{find_first}
use bonde_backend.Common.{is_some}
use bonde_backend.Finance.Ledger.Journals.{post_balances}
use bonde_backend.Finance.Ledger.Sums.{net_to}
use bonde_backend.Finance.Database.{Transaction, Database}
use bonde_backend.Finance.Ledger.Accounts.{IsValid, balance_of}
use bonde_backend.Common.Int.{ltb_ℤ, int_laws, pos, ℤ, negate}
use bonde_backend.Finance.Projections.{find_wallet, project_allocation_return}
use bonde_backend.Finance.Operations.{
  allocation, return_allocation, or_else, with_ledger, return_postings, return_balance,
}
use bonde_backend.Finance.Types.{card_key, Reference, Currency, AccountKey}
use bonde_backend.Finance.Runtime.{Runtime}
use bonde_backend.Finance.Ledger.{Store, post, Account, find_account}
use bonde_backend.Common.{
  Bool-cases, ◌⊎◌, ◌==◌, ap, ℕ, refl, ◌≡◌, ◌∙◌, some, none, [], ◌∷◌, List, false, Option, arith,
  inl, inr,
}
use bonde_backend.Common.Http.{throw_if-ok, ok, or_throw, other_error, ok_of_bind}

balance-found :
    (k : AccountKey) (accounts : List Account)
    → balance_of k accounts
      ≡ elim (find_account k accounts) as (λ x. ℤ) [ none ↦ pos 0 | some a ↦ a.balance ]
unfolding find_account
balance-found k [] = refl
balance-found k (a ∷ accounts) = ground (arith, balance-found k accounts)

-- The money on a card's account is what is returned, if there is any.
allocated :
    (card : ℕ) (currency : Currency) (s : Store)
    → ((allocation card currency s ≡ none)
        × (ltb_ℤ (pos 0) (balance_of (card_key card currency) s.accounts) ≡ false))
      ⊎ (allocation card currency s ≡ some (balance_of (card_key card currency) s.accounts))
allocated card currency s = go (find_account (card_key card currency) s.accounts) refl
  where
    go :
        (found : Option Account)
        → find_account (card_key card currency) s.accounts ≡ found
        → ((allocation card currency s ≡ none)
            × (ltb_ℤ (pos 0) (balance_of (card_key card currency) s.accounts) ≡ false))
          ⊎ (allocation card currency s ≡ some (balance_of (card_key card currency) s.accounts))
    go none same = inl (
      ground (arith, same),
      ground (arith, same, balance-found (card_key card currency) s.accounts),
    )
    go (some a) same = elim (Bool-cases (ltb_ℤ (pos 0) a.balance)) [
      | inl money ↦
          inr (grind (arith, same, money, balance-found (card_key card currency) s.accounts))
      | inr nothing ↦ inl (
        grind (arith, same, nothing),
        grind (arith, same, nothing, balance-found (card_key card currency) s.accounts),
      )
    ]

module _ (rt : Runtime) where
  returned-Posted :
      (id user card : ℕ) (currency : Currency) (reference : Reference) (balance : ℤ)
      (db db' : Database)
      → return_balance rt id user card currency reference (some balance) db ≡ ok db'
      → post rt.before rt.new_journal reference
          (return_postings user card currency balance)
          db.ledger
        ≡ ok db'.ledger
  unfolding return_balance project_allocation_return
  returned-Posted id user card currency reference balance db db' h =
      let (t, posted, h₁) =
        ok_of_bind
          (post rt.before rt.new_journal reference (return_postings user card currency balance)
            db.ledger)
          _ h in
      let (wallet, found, h₂) =
        ok_of_bind (or_throw (find_wallet user (with_ledger db t)) (other_error "No Wallet found"))
          _ h₁ in
      let (_, h₃) =
        throw_if-ok
          (is_some (find_first (λ (t : Transaction). t.id == id) (with_ledger db t).transactions)) _
          _ h₂ in
      posted ∙ ap (λ r. ok (or_else r db).ledger) h₃

  card_returned :
      (user card : ℕ) (currency : Currency) (balance : ℤ)
      → net_to (card_key card currency) (return_postings user card currency balance)
        ≡ negate balance
  card_returned user card currency balance = grind int_laws

  -- In valid tables, after a call of `return_allocation` that returns, the card's account holds no money.
  pub return_allocation_empties :
      (id user card : ℕ) (currency : Currency) (reference : Reference) (db db' : Database)
      → IsValid db.ledger
      → return_allocation rt id user card currency reference db ≡ ok db'
      → ltb_ℤ (pos 0) (balance_of (card_key card currency) db'.ledger.accounts) ≡ false
  unfolding return_allocation return_balance
  return_allocation_empties id user card currency reference db db' v h =
      elim (allocated card currency db.ledger) [
        | inl (nothing, empty_now) ↦
            let same : return_balance rt id user card currency reference none db ≡ ok db' =
              rw nothing at h in
            rw (ap (λ r. (or_else r db).ledger) same) at empty_now
        | inr found ↦
            let posted = returned-Posted id user card currency reference _ db db' (rw found at h) in
            let moved =
              post_balances rt.before rt.new_journal reference
                (return_postings user card currency
                  (balance_of (card_key card currency) db.ledger.accounts))
                db.ledger db'.ledger v posted (card_key card currency) in
            grind (
              int_laws,
              moved,
              card_returned user card currency
                  (balance_of (card_key card currency) db.ledger.accounts),
            )
      ]
