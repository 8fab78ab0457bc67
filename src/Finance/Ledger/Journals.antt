-- ===== src/Finance/Ledger/Journals.antt =====
-- What `LedgerService.post` guarantees of the tables it leaves behind, and which calls it refuses.
use bonde_backend.Common.{
  ℕ, ◌≡◌, Bool, false, ◌||◌, none, List, [], ◌∷◌, arith, ltb, length, ◌≢◌, ◌<◌, ap, ◌∙◌, ◌⊎◌,
}
use bonde_backend.Common.Int.{ℤ, pos, ◌+ℤ◌, int_laws}
use bonde_backend.Common.Table.{find_first}
use bonde_backend.Common.Http.{ok, ok_of_bind, throw_if-ok}
use bonde_backend.Finance.Types.{Reference, Currency, AccountKey}
use bonde_backend.Finance.Ledger.{
  reference_eq, Posting, Line, Journal, Store, collect, some_nonzero, apply_line, apply_lines,
  create_journal, sort_lines, post,
}
use bonde_backend.Finance.Ledger.Sums.{
  net, net_to, total, sum_of_nonzero, collect-Collected, sort_lines-total, sort_lines-sum,
}
use bonde_backend.Finance.Ledger.Accounts.{IsValid, balance_of, apply_lines-Applied}

-- The parts of a call that returned.
record Posted (before : AccountKey → AccountKey → Bool) (id : ℕ) (reference : Reference)
    (lines : List Posting) (s s' : Store) : Type 0 where
  sums : List (Currency × ℤ)
  merged : List Line
  opened : Store
  collected : collect lines [] [] ≡ ok (sums, merged)
  balanced : (ltb (length lines) 2 || some_nonzero sums) ≡ false
  created : create_journal id reference s ≡ ok opened
  applied : apply_lines id (sort_lines before merged) opened ≡ ok s'

create_journal_lem :
    (id : ℕ) (reference : Reference) (s t : Store)
    → create_journal id reference s ≡ ok t
    → (find_first (λ (j : Journal). reference_eq j.reference reference) s.journals ≡ none)
      × (t ≡ record s { journals = record { id = id; reference = reference } ∷ s.journals })
unfolding create_journal
create_journal_lem id reference s t h = ground arith

module _ (before : AccountKey → AccountKey → Bool) (id : ℕ) (reference : Reference)
    (lines : List Posting) (s s' : Store) where
  post-Posted : post before id reference lines s ≡ ok s' → Posted before id reference lines s s'
  unfolding post
  post-Posted h =
      let ((sums, merged), collected, h₁) = ok_of_bind (collect lines [] []) _ h in
      let (balanced, h₂) = throw_if-ok (ltb (length lines) 2 || some_nonzero sums) _ _ h₁ in
      let (opened, created, applied) = ok_of_bind (create_journal id reference s) _ h₂ in
      record {
        sums = sums;
        merged = merged;
        opened = opened;
        collected = collected;
        balanced = balanced;
        created = created;
        applied = applied;
      }

  opened_accounts : (p : Posted before id reference lines s s') → p.opened.accounts ≡ s.accounts
  opened_accounts p = let (_, e) = create_journal_lem id reference s p.opened p.created in rw e

  opened-IsValid : IsValid s → (p : Posted before id reference lines s s') → IsValid p.opened
  opened-IsValid v p =
      let (_, e) = create_journal_lem id reference s p.opened p.created in
      rw e (record { distinct = v.distinct; solvent = v.solvent; reconciled = v.reconciled })

  balances_lem :
      (p : Posted before id reference lines s s')
      → IsValid s
      → (k : AccountKey) → balance_of k s'.accounts ≡ balance_of k s.accounts +ℤ net_to k lines
  balances_lem p v k =
      let c = collect-Collected lines [] p.sums [] p.merged p.collected in
      let a =
        apply_lines-Applied id (sort_lines before p.merged) p.opened s' (opened-IsValid v p)
          p.applied in
      grind (
        int_laws,
        ap (balance_of k) (opened_accounts p),
        a.balances k,
        sort_lines-sum before k p.merged,
        c.by_key k,
      )

  totals_lem :
      (p : Posted before id reference lines s s')
      → IsValid s
      → (c : Currency) → total c s'.accounts ≡ total c s.accounts
  totals_lem p v c =
      let collected = collect-Collected lines [] p.sums [] p.merged p.collected in
      let a =
        apply_lines-Applied id (sort_lines before p.merged) p.opened s' (opened-IsValid v p)
          p.applied in
      grind (
        int_laws,
        ap (total c) (opened_accounts p),
        a.totals c,
        sort_lines-total before c p.merged,
        collected.in_lines c,
        collected.in_sums c,
        sum_of_nonzero c p.sums,
        p.balanced,
      )

  -- A call of `post` that returns keeps the tables valid: account keys are unique, no user's account
  -- is overdrawn, and every cached balance is the sum of the account's entries.
  pub post-IsValid : IsValid s → post before id reference lines s ≡ ok s' → IsValid s'
  post-IsValid v h =
      let p = post-Posted h in
      (apply_lines-Applied id (sort_lines before p.merged) p.opened s' (opened-IsValid v p)
        p.applied).valid

  -- In valid tables, a call of `post` that returns changes the balance of every account by the net
  -- amount of the lines that name its key, whatever the order in which the accounts are locked.
  pub post_balances :
      IsValid s
      → post before id reference lines s ≡ ok s'
      → (k : AccountKey) → balance_of k s'.accounts ≡ balance_of k s.accounts +ℤ net_to k lines
  post_balances v h = balances_lem (post-Posted h) v

  -- In valid tables, a call of `post` that returns leaves the sum of all balances in each currency as
  -- it was: money is neither created nor destroyed.
  pub post_conserves :
      IsValid s
      → post before id reference lines s ≡ ok s'
      → (c : Currency) → total c s'.accounts ≡ total c s.accounts
  post_conserves v h = totals_lem (post-Posted h) v

  -- `post` does not return for lines that do not sum to zero in some currency, or for fewer than two.
  pub post_unbalanced :
      (c : Currency)
      → (net c lines ≢ pos 0) ⊎ (length lines < 2)
      → post before id reference lines s ≢ ok s'
  post_unbalanced c bad h =
      let p = post-Posted h in
      let collected = collect-Collected lines [] p.sums [] p.merged p.collected in
      grind (int_laws, bad, collected.in_sums c, sum_of_nonzero c p.sums, p.balanced)

pub apply_lines-journals :
    (j : ℕ) (ls : List Line) (s s' : Store) → apply_lines j ls s ≡ ok s' → s'.journals ≡ s.journals
unfolding apply_lines apply_line
apply_lines-journals j [] s s' h = cc
apply_lines-journals j (l ∷ ls) s s' h =
    let (mid, first, rest) = ok_of_bind (apply_line j l s) _ h in
    apply_lines-journals j ls mid s' rest ∙ ground arith

-- A call of `post` that returns adds its journal.
pub post-journals :
    (before : AccountKey → AccountKey → Bool) (id : ℕ) (reference : Reference)
    (lines : List Posting) (s s' : Store)
    → post before id reference lines s ≡ ok s'
    → s'.journals ≡ record { id = id; reference = reference } ∷ s.journals
post-journals before id reference lines s s' h =
    let p = post-Posted before id reference lines s s' h in
    let (_, e) = create_journal_lem id reference s p.opened p.created in
    apply_lines-journals id (sort_lines before p.merged) p.opened s' p.applied
    ∙ ap (λ u. u.journals) e

-- After a call of `post` has returned, no second call with the same reference returns, whatever its
-- lines: a retried operation cannot move the money twice.
pub post_replayed :
    (before : AccountKey → AccountKey → Bool) (id id' : ℕ) (reference : Reference)
    (lines lines' : List Posting) (s s' t : Store)
    → post before id reference lines s ≡ ok s'
    → post before id' reference lines' s' ≢ ok t
post_replayed before id id' reference lines lines' s s' t h again =
    let q = post-Posted before id' reference lines' s' t again in
    let (fresh, _) = create_journal_lem id' reference s' q.opened q.created in
    ground (arith, rw (post-journals before id reference lines s s' h) at fresh)
