-- ===== src/Finance/Authorizations/Approval.antt =====
-- What an approval of `FinanceAuthorizations.authorize` rests on.
use bonde_backend.Finance.Requests.{RawAuthorization, Request, read_request, Context}
use bonde_backend.Finance.Checks.{
  is_blocked, policy_request, is_verification, rule_decision, limit_decision, lacks_funds,
}
use bonde_backend.Finance.Retirement.{mark_if}
use bonde_backend.Finance.Authorizations.Outcome.{approved-IsHeld, observe-ledger, IsHeld}
use bonde_backend.Common.Text.{Text}
use bonde_backend.Common.Table.{find_first}
use bonde_backend.Finance.Merchants.{Merchant, observe}
use bonde_backend.Common.Http.{ok_of_bind, err, Result, ok}
use bonde_backend.Common.{◌∷◌, List, Option-cases}
use bonde_backend.Finance.Ledger.{Account, find_account}
use bonde_backend.Finance.Types.{AccountKey, card_key}
use bonde_backend.Finance.Ledger.Accounts.{balance_of}
use bonde_backend.Finance.CardPolicy.Decision.{policy_decision_sound, IsWithin, Permits}
use bonde_backend.Common.Int.{◌≤ℤ◌, pos}
use bonde_backend.Finance.Policy.{snapshot, Snapshot}
use bonde_backend.Finance.Runtime.{Runtime}
use bonde_backend.Finance.Authorizations.{
  authorize, answer_new, replayed, is_owner, answer, Decline, authorize_in_transaction,
  decide_funds, record_authorization, decide,
}
use bonde_backend.Common.{
  ℕ, ◌≡◌, ◌<◌, ◌+◌, arith, ◌⊎◌, none, ◌==◌, some, true, false, if◌then◌else◌, Option, List, [], ◌∷◌,
  refl, inl, inr,
}
use bonde_backend.Finance.Database.{
  MerchantIdentity, Authorization, Card, active, Database, approved,
}

-- An approval of this request made by the checks, which have read the card and its merchant.
pub record IsApproved (c : Context) (usage : Snapshot) (now : ℕ) (db : Database) : Type 0 where
  pub active_card : c.card.status ≡ active
  pub in_use : (c.card.retired_at ≡ none) × (usage.reason ≡ none)
  pub controlled : usage.controls_valid ≡ true
  pub trusted : c.identity.revoked_at ≡ none
  pub unexpired : now < c.card.expiration_date
  pub permitted :
      Permits usage.rule
        (policy_request c)
        (record { spent = usage.spent; uses = if is_verification c then 0 else usage.uses })
        now
  pub in_limits :
      IsWithin c.request.amount c.card.max_spend_limit
      × IsWithin (usage.spent + c.request.amount) c.card.monthly_limit
  pub funded :
      (c.request.amount ≡ 0)
      ⊎ (pos c.request.amount
          ≤ℤ balance_of (card_key c.card.id c.request.currency) db.ledger.accounts)

-- What the first refusal does not let pass.
unblocked :
    (c : Context) (usage : Snapshot) (now : ℕ) (db : Database)
    → is_blocked c usage now db ≡ false
    → (c.card.status ≡ active)
      × (c.card.retired_at ≡ none)
      × (usage.reason ≡ none)
      × (usage.controls_valid ≡ true)
      × (c.identity.revoked_at ≡ none)
      × (now < c.card.expiration_date)
unfolding is_blocked
unblocked c usage now db h = ground arith

balance_of_found :
    (k : AccountKey) (accounts : List Account) {a : Account}
    → find_account k accounts ≡ some a
    → balance_of k accounts ≡ a.balance
unfolding find_account
balance_of_found k [] h = cc
balance_of_found k (b ∷ accounts) {a = a} h = ground (arith, balance_of_found k accounts {a = a})

has_funds :
    (c : Context) (db : Database)
    → lacks_funds c db ≡ false
    → (c.request.amount ≡ 0)
      ⊎ (pos c.request.amount
          ≤ℤ balance_of (card_key c.card.id c.request.currency) db.ledger.accounts)
unfolding lacks_funds
has_funds c db h =
    elim (Option-cases (find_account (card_key c.card.id c.request.currency) db.ledger.accounts)) [
      | inl missing ↦ ground (arith, missing)
      | inr (a, found) ↦ ground (
        arith,
        found,
        balance_of_found (card_key c.card.id c.request.currency) db.ledger.accounts found,
      )
    ]

-- The refusals of the two rules.
ruled-None :
    (rt : Runtime) (c : Context) (usage : Snapshot) (now : ℕ) (db db' : Database)
    (decision : Result (Option Decline))
    → rule_decision c usage now ≡ decision
    → decide rt c usage now db ≡ ok (approved, db')
    → (decision ≡ ok none) × (decide_funds rt c usage now db ≡ ok (approved, db'))
unfolding decide record_authorization
ruled-None rt c usage now db db' (err e) same h = ground (arith, same, h)
ruled-None rt c usage now db db' (ok (some reason)) same h = ground (arith, same, h)
ruled-None rt c usage now db db' (ok none) same h = ground (arith, same, h)

limited-None :
    (rt : Runtime) (c : Context) (usage : Snapshot) (now : ℕ) (db db' : Database)
    (decision : Result (Option Decline))
    → limit_decision c usage now ≡ decision
    → decide_funds rt c usage now db ≡ ok (approved, db')
    → (decision ≡ ok none) × (lacks_funds c db ≡ false)
unfolding decide_funds record_authorization
limited-None rt c usage now db db' (err e) same h = ground (arith, same, h)
limited-None rt c usage now db db' (ok (some reason)) same h = ground (arith, same, h)
limited-None rt c usage now db db' (ok none) same h = ground (arith, same, h)

-- An approval is given only behind every check.
approved-IsApproved :
    (rt : Runtime) (c : Context) (usage : Snapshot) (now : ℕ) (db db' : Database)
    → decide rt c usage now db ≡ ok (approved, db')
    → IsApproved c usage now db
unfolding decide record_authorization rule_decision limit_decision
approved-IsApproved rt c usage now db db' h =
    let free : is_blocked c usage now db ≡ false = ground (arith, h) in
    let (ruled, funds) = ruled-None rt c usage now db db' (rule_decision c usage now) refl h in
    let (limited, rich) =
      limited-None rt c usage now db db' (limit_decision c usage now) refl funds in
    let (is_active, retired, reason, valid, trusted, unexpired) = unblocked c usage now db free in
    let limits = policy_decision_sound _ _ _ now limited in
    record {
      active_card = is_active;
      in_use = (retired, reason);
      controlled = valid;
      trusted = trusted;
      unexpired = unexpired;
      permitted = policy_decision_sound _ _ _ now ruled;
      in_limits = (limits.single, limits.monthly);
      funded = has_funds c db rich;
    }

-- The approval of a request that had no record.
pub record IsGranted (rt : Runtime) (request : Request) (now : ℕ) (db db' : Database) : Type 0 where
  pub context : Context
  pub usage : Snapshot
  pub seen : Database
  pub same_request : context.request ≡ request
  pub owned : find_first (is_owner request) db.cards ≡ some context.card
  pub observed :
      observe rt.to_upper rt.new_identity context.card.user_id request.merchant db
      ≡ ok (context.identity, seen)
  pub measured : snapshot rt.parse rt.month_start context.card now seen ≡ ok usage
  pub checked : IsApproved context usage now seen
  pub moved : IsHeld rt context db.ledger db'.ledger

-- The approval that an earlier call gave and recorded.
pub record IsRepeated (request : Request) (db db' : Database) : Type 0 where
  pub earlier : Authorization
  pub recorded :
      find_first (λ (a : Authorization). a.id == request.id) db.authorizations ≡ some earlier
  pub same_answer : earlier.response_code ≡ approved
  pub unmoved : db'.ledger ≡ db.ledger

pub observe-authorizations :
    (to_upper : Text → Text) (fresh : Text) (user : ℕ) (m : Merchant) (db : Database)
    {row : MerchantIdentity} {seen : Database}
    → observe to_upper fresh user m db ≡ ok (row, seen)
    → seen.authorizations ≡ db.authorizations
unfolding observe
observe-authorizations to_upper fresh user m db same = ground arith

module _ (rt : Runtime) (request : Request) (now : ℕ) (db db' : Database) where
  replayed-IsRepeated :
      (c : Context) (seen : Database) (a : Authorization)
      → find_first (λ (b : Authorization). b.id == request.id) db.authorizations ≡ some a
      → seen.ledger ≡ db.ledger
      → (replayed c a ≡ approved) × (seen ≡ db')
      → IsRepeated request db db'
  unfolding replayed
  replayed-IsRepeated c seen a found same h = record {
    earlier = a;
    recorded = found;
    same_answer = ground (arith, h.0);
    unmoved = ground (arith, h.1, same);
  }

  new-IsGranted :
      (card : Card) (identity : MerchantIdentity) (seen : Database)
      → find_first (is_owner request) db.cards ≡ some card
      → observe rt.to_upper rt.new_identity card.user_id request.merchant db ≡ ok (identity, seen)
      → answer_new rt (record { request = request; card = card; identity = identity }) now seen
        ≡ ok (approved, db')
      → IsGranted rt request now db db'
  unfolding answer_new mark_if
  new-IsGranted card identity seen owned observed h =
      let c : Context = record { request = request; card = card; identity = identity } in
      let (usage, measured, decided) =
        ok_of_bind (snapshot rt.parse rt.month_start card now seen) _ h in
      let marked : Database =
        mark_if (rt.retire_key card.id) rt.new_operation card usage.reason now seen in
      let behind = approved-IsApproved rt c usage now marked db' decided in
      let none_marked : marked ≡ seen = rw behind.in_use.1 refl in
      record {
        context = c;
        usage = usage;
        seen = seen;
        same_request = refl;
        owned = owned;
        observed = observed;
        measured = measured;
        checked = rw none_marked at behind;
        moved =
            rw
              (observe-ledger rt rt.to_upper rt.new_identity card.user_id request.merchant db
                observed)
              at (rw none_marked at (approved-IsHeld rt c usage now marked db' decided));
      }

  answer-approved :
      (card : Card)
      → find_first (is_owner request) db.cards ≡ some card
      → answer rt request card now db ≡ ok (approved, db')
      → IsRepeated request db db' ⊎ IsGranted rt request now db db'
  unfolding answer
  answer-approved card owned h =
      let ((identity, seen), observed, h₁) =
        ok_of_bind (observe rt.to_upper rt.new_identity card.user_id request.merchant db) _ h in
      let same =
        observe-authorizations rt.to_upper rt.new_identity card.user_id request.merchant db
          observed in
      elim (Option-cases
        (find_first (λ (a : Authorization). a.id == request.id) seen.authorizations)) [
          | inl absent ↦ inr (new-IsGranted card identity seen owned observed (rw absent at h₁))
          | inr (a, found) ↦ inl (
              replayed-IsRepeated (record { request = request; card = card; identity = identity })
                seen a (rw same at found)
                (observe-ledger rt rt.to_upper rt.new_identity card.user_id request.merchant db
                  observed)
                (ground (arith, h₁, found)))
        ]

  transaction-approved :
      authorize_in_transaction rt request now db ≡ ok (approved, db')
      → IsRepeated request db db' ⊎ IsGranted rt request now db db'
  unfolding authorize_in_transaction
  transaction-approved h = elim (Option-cases (find_first (is_owner request) db.cards)) [
    | inl absent ↦ ground (arith, absent, h)
    | inr (card, owned) ↦ answer-approved card owned (ground (arith, owned, h))
  ]

-- If `authorize` answers '00', then the request is well-formed, and either an earlier call recorded
-- '00' for the same id and the ledger is as it was, or the card is found, active, neither retired
-- nor due to be, unexpired and under valid controls, the merchant is not revoked, the card's rule
-- and its own limits permit the amount on top of what was spent, the card's account covers it, and
-- the ledger is what posting the amount from the card to the hold gives (as it was, for an amount
-- of 0).
pub authorize_sound :
    (rt : Runtime) (raw : RawAuthorization) (now : ℕ) (db db' : Database)
    → authorize rt raw now db ≡ (approved, db')
    → (request : Request) × (read_request rt.config raw ≡ ok request)
      × (IsRepeated request db db' ⊎ IsGranted rt request now db db')
unfolding authorize
authorize_sound rt raw now db db' h = go (read_request rt.config raw) refl
  where
    go :
        (read : Result Request)
        → read_request rt.config raw ≡ read
        → (request : Request) × (read_request rt.config raw ≡ ok request)
          × (IsRepeated request db db' ⊎ IsGranted rt request now db db')
    go (err e) same = ground (arith, same, h)
    go (ok request) same =
        (request, same, transaction-approved rt request now db db' (ground (arith, same, h)))
