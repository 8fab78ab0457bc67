-- ===== src/Finance/Authorizations/Replay.antt =====
-- A second request with the same id: the issuer retries, and `FinanceAuthorizations.authorize` answers
-- from what it recorded.
use bonde_backend.Finance.Requests.{RawAuthorization, Request, read_request, Context}
use bonde_backend.Finance.Checks.{is_blocked, rule_decision, is_grant}
use bonde_backend.Finance.Authorizations.Approval.{observe-authorizations}
use bonde_backend.Finance.Retirement.{mark_if}
use bonde_backend.Common.{Bool-cases}
use bonde_backend.Finance.Policy.{snapshot, Snapshot}
use bonde_backend.Finance.Merchants.{observe, candidate}
use bonde_backend.Common.Http.{ok_of_bind, err, Result, ok}
use bonde_backend.Finance.Runtime.{Runtime}
use bonde_backend.Finance.Authorizations.{
  is_owner, authorize, authorize_in_transaction, replayed, answer, answer_new, offer_candidate,
  Decline, decide, decide_funds, use_grant, record_authorization, approve_with_grant, approve,
}
use bonde_backend.Common.Table.{find_first}
use bonde_backend.Common.{
  ℕ, ◌≡◌, ◌==◌, arith, none, some, false, Option, refl, inl, inr, Option-cases,
}
use bonde_backend.Finance.Database.{
  declined, Card, Database, approved, ResponseCode, do_not_honour, Authorization,
}

-- The recorded request with this id, if any.
abbrev pub recorded : ℕ → Database → Option Authorization
recorded id db = find_first (λ (a : Authorization). a.id == id) db.authorizations

-- The answer recorded for an id.
abbrev pub response_of : ℕ → Database → Option ResponseCode
response_of id db = elim (recorded id db) [ none ↦ none | some a ↦ some a.response_code ]

-- A returned answer is the recorded one.
abbrev pub Records : ℕ → Result (ResponseCode × Database) → Type 0
Records id (ok (code, db')) = response_of id db' ≡ some code
Records id (err e) = Unit

module _ (rt : Runtime) where
  approve-Records : (c : Context) (db : Database) → Records c.request.id (approve rt c db)
  unfolding approve record_authorization
  approve-Records c db = ground arith

  approve_with_grant-Records :
      (c : Context) (now : ℕ) (db : Database)
      → Records c.request.id (approve_with_grant rt c now db)
  unfolding approve_with_grant record_authorization
  approve_with_grant-Records c now db =
      elim (Option-cases (find_first (is_grant c now) db.authorizations)) [
        | inl missing ↦ ground (arith, missing, approve-Records c db)
        | inr (grant, found) ↦
            ground
              (arith, found, approve-Records c db, approve-Records c (use_grant grant.id now db))
      ]

  decide_funds-Records :
      (c : Context) (usage : Snapshot) (now : ℕ) (db : Database)
      → Records c.request.id (decide_funds rt c usage now db)
  unfolding decide_funds record_authorization
  decide_funds-Records c usage now db = ground (arith, approve_with_grant-Records c now db)

  offer_candidate-recorded :
      (c : Context) (reason : Decline) (now : ℕ) (db : Database)
      → (offer_candidate rt c reason now db).authorizations ≡ db.authorizations
  unfolding candidate
  offer_candidate-recorded c reason now db = ground arith

  ruled-Records :
      (c : Context) (usage : Snapshot) (now : ℕ) (db : Database)
      (decision : Result (Option Decline))
      → is_blocked c usage now db ≡ false
      → rule_decision c usage now ≡ decision
      → Records c.request.id (decide rt c usage now db)
  unfolding decide record_authorization
  ruled-Records c usage now db (err e) free ruled = ground (arith, free, ruled)
  ruled-Records c usage now db (ok none) free ruled =
      ground (arith, free, ruled, decide_funds-Records c usage now db)
  ruled-Records c usage now db (ok (some reason)) free ruled = ground (
    arith,
    free,
    ruled,
    offer_candidate-recorded c reason now (record_authorization c do_not_honour declined db).1,
  )

  decide-Records :
      (c : Context) (usage : Snapshot) (now : ℕ) (db : Database)
      → Records c.request.id (decide rt c usage now db)
  unfolding decide record_authorization
  decide-Records c usage now db = elim (Bool-cases (is_blocked c usage now db)) [
    | inl blocked ↦ ground (arith, blocked)
    | inr free ↦ ruled-Records c usage now db (rule_decision c usage now) free refl
  ]

  new-Records :
      (c : Context) (now : ℕ) (seen : Database) {code : ResponseCode} {db' : Database}
      → answer_new rt c now seen ≡ ok (code, db')
      → response_of c.request.id db' ≡ some code
  unfolding answer_new
  new-Records c now seen h =
      let (usage, measured, decided) =
        ok_of_bind (snapshot rt.parse rt.month_start c.card now seen) _ h in
      let key = rt.retire_key c.card.id in
      rw decided at
        (decide-Records c usage now (mark_if key rt.new_operation c.card usage.reason now seen))

  -- What is recorded is answered, and no more is done.
  answer_recorded :
      (request : Request) (card : Card) (now : ℕ) (db : Database) (a : Authorization)
      → recorded request.id db ≡ some a
      → {answered : ResponseCode × Database} → answer rt request card now db ≡ ok answered
      → (answered.1.ledger ≡ db.ledger)
        × (answered.1.authorizations ≡ db.authorizations)
        × (answered.1.cards ≡ db.cards)
        × (answered.1.operations ≡ db.operations)
  unfolding answer observe
  answer_recorded request card now db a found h =
      let ((identity, seen), observed, h₁) =
        ok_of_bind (observe rt.to_upper rt.new_identity card.user_id request.merchant db) _ h in
      let same =
        observe-authorizations rt.to_upper rt.new_identity card.user_id request.merchant db
          observed in
      ground (arith, found, observed, h₁, same)

  answer-Records :
      (request : Request) (card : Card) (now : ℕ) (db db' : Database)
      → answer rt request card now db ≡ ok (approved, db')
      → response_of request.id db' ≡ some approved
  unfolding answer replayed
  answer-Records request card now db db' h =
      let ((identity, seen), observed, h₁) =
        ok_of_bind (observe rt.to_upper rt.new_identity card.user_id request.merchant db) _ h in
      elim (Option-cases
        (find_first (λ (a : Authorization). a.id == request.id) seen.authorizations)) [
          | inl absent ↦
              new-Records (record { request = request; card = card; identity = identity }) now seen
                (rw absent at h₁)
          | inr (a, found) ↦ ground (arith, h₁, found)
        ]

  transaction_recorded :
      (request : Request) (now : ℕ) (db : Database) (a : Authorization)
      → recorded request.id db ≡ some a
      → {answered : ResponseCode × Database}
      → authorize_in_transaction rt request now db ≡ ok answered
      → (answered.1.ledger ≡ db.ledger)
        × (answered.1.authorizations ≡ db.authorizations)
        × (answered.1.cards ≡ db.cards)
        × (answered.1.operations ≡ db.operations)
  unfolding authorize_in_transaction
  transaction_recorded request now db a found {answered = answered} h =
      elim (Option-cases (find_first (is_owner request) db.cards)) [
        | inl absent ↦ ground (arith, absent, h)
        | inr (card, owned) ↦
            answer_recorded request card now db a found {answered = answered}
              (ground (arith, owned, h))
      ]

  transaction-Records :
      (request : Request) (now : ℕ) (db db' : Database)
      → authorize_in_transaction rt request now db ≡ ok (approved, db')
      → response_of request.id db' ≡ some approved
  unfolding authorize_in_transaction
  transaction-Records request now db db' h =
      elim (Option-cases (find_first (is_owner request) db.cards)) [
        | inl absent ↦ ground (arith, absent, h)
        | inr (card, owned) ↦ answer-Records request card now db db' (ground (arith, owned, h))
      ]

-- A well-formed request whose id is recorded moves nothing, whatever else it says: the ledger, the
-- cards, the authorizations and the operations are as they were.
pub authorize_recorded :
    (rt : Runtime) (raw : RawAuthorization) (request : Request) (a : Authorization) (now : ℕ)
    (db : Database)
    → read_request rt.config raw ≡ ok request
    → recorded request.id db ≡ some a
    → let after = (authorize rt raw now db).1 in
      (after.ledger ≡ db.ledger)
      × (after.authorizations ≡ db.authorizations)
      × (after.cards ≡ db.cards)
      × (after.operations ≡ db.operations)
unfolding authorize
authorize_recorded rt raw request a now db read found =
    go (authorize_in_transaction rt request now db) refl
  where
    go :
        (result : Result (ResponseCode × Database))
        → authorize_in_transaction rt request now db ≡ result
        → let after = (authorize rt raw now db).1 in
          (after.ledger ≡ db.ledger)
          × (after.authorizations ≡ db.authorizations)
          × (after.cards ≡ db.cards)
          × (after.operations ≡ db.operations)
    go (err e) done = rw (read, done, authorize) (refl, refl, refl, refl)
    go (ok answered) done =
        rw (read, done, authorize) (transaction_recorded rt request now db a found done)

-- After '00' has been answered to a request, a well-formed request with the same id, at any time
-- and whatever else it says, leaves the ledger and the cards as that answer left them: an approved
-- purchase is held once.
pub authorize_once :
    (rt rt' : Runtime) (raw raw' : RawAuthorization) (request request' : Request) (now later : ℕ)
    (db db' : Database)
    → read_request rt.config raw ≡ ok request
    → read_request rt'.config raw' ≡ ok request'
    → request.id ≡ request'.id
    → authorize rt raw now db ≡ (approved, db')
    → ((authorize rt' raw' later db').1.ledger ≡ db'.ledger)
      × ((authorize rt' raw' later db').1.cards ≡ db'.cards)
unfolding authorize
authorize_once rt rt' raw raw' request request' now later db db' read read' same h =
    let done : response_of request.id db' ≡ some approved =
      transaction-Records rt request now db db' (ground (arith, read, h)) in
    elim (Option-cases (recorded request'.id db')) [
      | inl absent ↦ ground (arith, same, done, absent)
      | inr (a, found) ↦
          let kept = authorize_recorded rt' raw' request' a later db' read' found in
          (kept.0, kept.2)
    ]
