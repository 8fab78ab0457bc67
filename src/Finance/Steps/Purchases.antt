-- ===== src/Finance/Steps/Purchases.antt =====
-- A purchase or a refund that the issuer reports again, however much later, is not settled again.
use bonde_backend.Finance.Operations.{or_else, find_card, set_inbox}
use bonde_backend.Finance.Retirement.{is_cancelled}
use bonde_backend.Common.{sym, ap, is_some}
use bonde_backend.Finance.Steps.{Steps-IsKept, Steps}
use bonde_backend.Finance.Retirement.Safety.{mark_if-IsKept}
use bonde_backend.Finance.Policy.{is_held, snapshot}
use bonde_backend.Finance.Events.Runs.{budget_alerts-Keeps}
use bonde_backend.Finance.Operations.Safety.{project-Keeps}
use bonde_backend.Finance.Steps.Deposits.{posted-recorded}
use bonde_backend.Finance.Kept.{IsKept, bind-Keeps, IsKept-refl, then-Keeps, Keeps}
use bonde_backend.Finance.Events.Transactions.{
  is_settled, settle, Settlement, reverse_hold, refund, capture,
}
use bonde_backend.Finance.Runtime.{Runtime}
use bonde_backend.Finance.Ledger.{post, Posting, has_journal, Store}
use bonde_backend.Finance.Database.{processed, Card, Database}
use bonde_backend.Finance.Types.{Prefix, AccountKey, Reference}
use bonde_backend.Common.{
  ◌&&◌, ◌==◌, inr, inl, ◌⊎◌, ℕ, refl, ◌≡◌, List, true, false, Bool, arith, if◌then◌else◌, ◌||◌,
}
use bonde_backend.Common.Http.{ok_of_bind, ◌>>◌, throw_if, Exception, ◌>>=◌, Result, ok, err}

-- The reference of what a call of `settle` posts.
abbrev pub kind_reference : Bool → ℕ → Reference
kind_reference refunds id = record {
  prefix = if refunds then Prefix.refund else Prefix.capture;
  id = id;
}

abbrev reversal_reference : ℕ → Reference
reversal_reference id = record { prefix = Prefix.reversal; id = id }

-- A run that returns has left one of the two journals that a report looks for.
abbrev Settled : Bool → ℕ → Result Database → Type 0
Settled refunds id (ok db) =
    (has_journal (kind_reference refunds id) db.ledger
      || has_journal (reversal_reference id) db.ledger)
    ≡ true
Settled refunds id (err e) = Unit

kept-Settled :
    (refunds : Bool) (id : ℕ) (s : Store) (run : Result Database)
    → (has_journal (kind_reference refunds id) s ≡ true)
      ⊎ (has_journal (reversal_reference id) s ≡ true)
    → Keeps s run
    → Settled refunds id run
kept-Settled refunds id s (err e) there kept = tt
kept-Settled refunds id s (ok db) (inl there) kept =
    ground (arith, kept.recorded (kind_reference refunds id) there)
kept-Settled refunds id s (ok db) (inr there) kept =
    ground (arith, kept.recorded (reversal_reference id) there)

guard-Settled :
    (refunds : Bool) (id : ℕ) (b : Bool) (e : Exception) (next : Result Database)
    → Settled refunds id next
    → Settled refunds id (throw_if b e >> next)
guard-Settled refunds id true e next h = tt
guard-Settled refunds id false e next h = h

post-Settled :
    (refunds : Bool) (id : ℕ) (before : AccountKey → AccountKey → Bool) (journal : ℕ)
    (r : Reference) (lines : List Posting) (s : Store) (next : Store → Result Database)
    → ((t : Store) → has_journal r t ≡ true → Settled refunds id (next t))
    → Settled refunds id (post before journal r lines s >>= next)
post-Settled refunds id before journal r lines s next h = go (post before journal r lines s) refl
  where
    go :
        (run : Result Store)
        → post before journal r lines s ≡ run
        → Settled refunds id (run >>= next)
    go (ok t) posted = h t (posted-recorded before journal r lines s t posted)
    go (err e) posted = tt

module _ (rt : Runtime) where
  capture-Settled :
      (t : Settlement) (current : Card) (now : ℕ) (db : Database)
      → Settled false t.id (capture rt t current now db)
  unfolding capture
  capture-Settled t current now db = guard-Settled false t.id _ _ _ (
      post-Settled false t.id _ _ _ _ db.ledger _ (λ s there.
        kept-Settled false t.id s _ (inl there) (
          then-Keeps s s _ _ (project-Keeps _ _ _ _ _ _ _ _) (IsKept-refl s) (λ shown before.
            then-Keeps s shown.ledger _ _ (budget_alerts-Keeps rt t.card t.amount now _) before
              (λ alerted sound.
                bind-Keeps s (snapshot rt.parse rt.month_start current now alerted) _
                  (λ usage. mark_if-IsKept s _ _ current usage.reason now alerted sound))))))

  refund-Settled :
      (t : Settlement) (to_wallet : Bool) (db : Database)
      → Settled true t.id (refund rt t to_wallet db)
  unfolding refund
  refund-Settled t to_wallet db = guard-Settled true t.id _ _ _ (
      post-Settled true t.id _ _ _ _ db.ledger _ (λ s there.
        kept-Settled true t.id s _ (inl there) (
          then-Keeps s s _ _ (project-Keeps _ _ _ _ _ _ _ _) (IsKept-refl s)
            (λ shown before. before))))

  reverse_hold-Settled : (t : Settlement) (db : Database) → Settled true t.id (reverse_hold rt t db)
  unfolding reverse_hold
  reverse_hold-Settled t db =
      guard-Settled true t.id _ _ _
        (post-Settled true t.id _ _ _ _ db.ledger _ (λ s there. ground (arith, there)))

  settle-Settled :
      (t : Settlement) (refunds : Bool) (now : ℕ) (db : Database)
      → Settled refunds t.id (settle rt t refunds now db)
  unfolding settle
  settle-Settled t refunds now db = found (find_card t.card.id db)
    where
      unsettled :
          (refunds : Bool) (current : Card)
          → Settled refunds t.id (
              if refunds
              then if t.auth.settled == 0 && is_held t.auth
                then reverse_hold rt t db
                else refund rt t (is_some current.retired_at || is_cancelled current) db
              else capture rt t current now db)
      unsettled false current = capture-Settled t current now db
      unsettled true current = go (t.auth.settled == 0 && is_held t.auth)
        where
          go :
              (b : Bool)
              → Settled true t.id (
                  if b
                  then reverse_hold rt t db
                  else refund rt t (is_some current.retired_at || is_cancelled current) db)
          go true = reverse_hold-Settled t db
          go false = refund-Settled t (is_some current.retired_at || is_cancelled current) db

      looked :
          (b : Bool)
          → is_settled t refunds db.ledger ≡ b
          → (next : Result Database) → Settled refunds t.id next
          → Settled refunds t.id (if b then ok (set_inbox t.inbox processed db) else next)
      looked true there next h = there
      looked false there next h = h

      found :
          (r : Result Card)
          → Settled refunds t.id (
              r >>= λ current.
              if is_settled t refunds db.ledger
              then ok (set_inbox t.inbox processed db)
              else if refunds
              then if t.auth.settled == 0 && is_held t.auth
                then reverse_hold rt t db
                else refund rt t (is_some current.retired_at || is_cancelled current) db
              else capture rt t current now db)
      found (err e) = tt
      found (ok current) =
          looked (is_settled t refunds db.ledger) refl _ (unsettled refunds current)

returned-Settled :
    (refunds : Bool) (id : ℕ) (run : Result Database) (db : Database)
    → run ≡ ok db
    → Settled refunds id run
    → (has_journal (kind_reference refunds id) db.ledger
        || has_journal (reversal_reference id) db.ledger)
      ≡ true
returned-Settled refunds id run db same h = rw same at h

settled-kept :
    (refunds : Bool) (t : Settlement) (id : ℕ) (s u : Store)
    → IsKept s u
    → t.id ≡ id
    → (has_journal (kind_reference refunds id) s || has_journal (reversal_reference id) s) ≡ true
    → is_settled t refunds u ≡ true
settled-kept refunds t id s u kept same there = rw same (
    go (has_journal (kind_reference refunds id) s) (has_journal (reversal_reference id) s) there
      (kept.recorded (kind_reference refunds id)) (kept.recorded (reversal_reference id)))
  where
    go :
        (a b : Bool)
        → (a || b) ≡ true
        → (a ≡ true → has_journal (kind_reference refunds id) u ≡ true)
        → (b ≡ true → has_journal (reversal_reference id) u ≡ true)
        → (has_journal (kind_reference refunds id) u || has_journal (reversal_reference id) u)
          ≡ true
    go true b h first second = ground (arith, first refl)
    go false true h first second = ground (arith, second refl)
    go false false h first second = cc

-- After a report of a purchase or of a refund has been settled, no later report of the same kind and the
-- same id that returns moves any money, whatever amount, card or authorization it names, and whatever has
-- happened to the tables in between.
pub settle_once :
    (rt rt' : Runtime) (t t' : Settlement) (refunds : Bool) (now now' : ℕ)
    (db db₁ db₂ db₃ : Database)
    → t'.id ≡ t.id
    → settle rt t refunds now db ≡ ok db₁
    → Steps db₁ db₂
    → settle rt' t' refunds now' db₂ ≡ ok db₃
    → db₃.ledger ≡ db₂.ledger
unfolding settle
settle_once rt rt' t t' refunds now now' db db₁ db₂ db₃ same h steps again =
    let before = returned-Settled refunds t.id _ db₁ h (settle-Settled rt t refunds now db) in
    let there =
      settled-kept refunds t' t.id db₁.ledger db₂.ledger (Steps-IsKept steps) same before in
    let (current, found, h₁) = ok_of_bind (find_card t'.card.id db₂) _ again in
    ap (λ r. (or_else r db₂).ledger) (sym (rw there at h₁))
