-- ===== src/Finance/Authorizations/Outcome.antt =====
-- What an answer to an authorization request has done to the ledger, and what an approval rests on.
use bonde_backend.Finance.Requests.{Context}
use bonde_backend.Finance.Checks.{is_blocked, rule_decision, is_grant}
use bonde_backend.Common.Text.{Text}
use bonde_backend.Finance.Retirement.{retire_now, enqueue, mark, mark_if}
use bonde_backend.Finance.Merchants.{Merchant, observe, candidate}
use bonde_backend.Common.{
  ℕ, ◌≡◌, refl, false, Option, none, some, arith, inl, inr, ◌⊎◌, Bool-cases, Option-cases,
}
use bonde_backend.Common.Table.{find_first}
use bonde_backend.Common.Http.{Result, ok, err}
use bonde_backend.Finance.Types.{Prefix}
use bonde_backend.Finance.Ledger.{Store, post}
use bonde_backend.Finance.Database.{
  declined, do_not_honour, RetirementReason, Card, ResponseCode, approved, MerchantIdentity,
  Database,
}
use bonde_backend.Finance.Policy.{Snapshot}
use bonde_backend.Finance.Runtime.{Runtime}
use bonde_backend.Finance.Authorizations.{
  offer_candidate, use_grant, Decline, record_authorization, hold_postings, approve,
  approve_with_grant, decide_funds, decide,
}

module _ (rt : Runtime) where
  -- The ledger with the purchase's hold, if it moves money.
  abbrev pub IsHeld : Context → Store → Store → Type 0
  IsHeld c s t =
      (c.request.amount ≡ 0) × (t ≡ s)
      ⊎ (post rt.before rt.new_journal (record { prefix = Prefix.authorization; id = c.request.id })
            (hold_postings c) s
          ≡ ok t)

  -- What each answer has done to the ledger: only an approval changes it.
  abbrev pub Moves : Context → Store → Result (ResponseCode × Database) → Type 0
  Moves c s (ok (approved, db')) = IsHeld c s db'.ledger
  Moves c s (ok (_, db')) = db'.ledger ≡ s
  Moves c s (err e) = Unit

  approve-Moves : (c : Context) (db : Database) → Moves c db.ledger (approve rt c db)
  unfolding approve record_authorization
  approve-Moves c db = ground arith

  approve_with_grant-Moves :
      (c : Context) (now : ℕ) (db : Database) → Moves c db.ledger (approve_with_grant rt c now db)
  unfolding approve_with_grant record_authorization
  approve_with_grant-Moves c now db =
      elim (Option-cases (find_first (is_grant c now) db.authorizations)) [
        | inl missing ↦ ground (arith, missing, approve-Moves c db)
        | inr (grant, found) ↦
            ground (arith, found, approve-Moves c db, approve-Moves c (use_grant grant.id now db))
      ]

  decide_funds-Moves :
      (c : Context) (usage : Snapshot) (now : ℕ) (db : Database)
      → Moves c db.ledger (decide_funds rt c usage now db)
  unfolding decide_funds record_authorization
  decide_funds-Moves c usage now db = ground (arith, approve_with_grant-Moves c now db)

  candidate-ledger :
      (card : Card) (identity : MerchantIdentity) (id now : ℕ) (db : Database)
      → (candidate card identity id now db).ledger ≡ db.ledger
  unfolding candidate
  candidate-ledger card identity id now db = ground arith

  offer_candidate-ledger :
      (c : Context) (reason : Decline) (now : ℕ) (db : Database)
      → (offer_candidate rt c reason now db).ledger ≡ db.ledger
  offer_candidate-ledger c reason now db =
      ground (arith, candidate-ledger c.card c.identity c.request.id now db)

  ruled-Moves :
      (c : Context) (usage : Snapshot) (now : ℕ) (db : Database)
      (decision : Result (Option Decline))
      → is_blocked c usage now db ≡ false
      → rule_decision c usage now ≡ decision
      → Moves c db.ledger (decide rt c usage now db)
  unfolding decide record_authorization
  ruled-Moves c usage now db (err e) free ruled = ground (arith, free, ruled)
  ruled-Moves c usage now db (ok none) free ruled =
      ground (arith, free, ruled, decide_funds-Moves c usage now db)
  ruled-Moves c usage now db (ok (some reason)) free ruled = ground (
    arith,
    free,
    ruled,
    offer_candidate-ledger c reason now (record_authorization c do_not_honour declined db).1,
  )

  pub decide-Moves :
      (c : Context) (usage : Snapshot) (now : ℕ) (db : Database)
      → Moves c db.ledger (decide rt c usage now db)
  unfolding decide record_authorization
  decide-Moves c usage now db = elim (Bool-cases (is_blocked c usage now db)) [
    | inl blocked ↦ ground (arith, blocked)
    | inr free ↦ ruled-Moves c usage now db (rule_decision c usage now) free refl
  ]

  pub approved-IsHeld :
      (c : Context) (usage : Snapshot) (now : ℕ) (db db' : Database)
      → decide rt c usage now db ≡ ok (approved, db')
      → IsHeld c db.ledger db'.ledger
  approved-IsHeld c usage now db db' h = rw h at (decide-Moves c usage now db)

  -- Marking a card for retirement and seeing a merchant leave the ledger alone.
  pub mark_if-ledger :
      (key fresh : ℕ) (card : Card) (reason : Option RetirementReason) (now : ℕ) (db : Database)
      → (mark_if key fresh card reason now db).ledger ≡ db.ledger
  unfolding mark_if mark enqueue retire_now
  mark_if-ledger key fresh card none now db = refl
  mark_if-ledger key fresh card (some reason) now db = ground arith

  pub observe-ledger :
      (to_upper : Text → Text) (fresh : Text) (user : ℕ) (m : Merchant) (db : Database)
      {row : MerchantIdentity} {seen : Database}
      → observe to_upper fresh user m db ≡ ok (row, seen)
      → seen.ledger ≡ db.ledger
  unfolding observe
  observe-ledger to_upper fresh user m db same = ground arith
