-- ===== src/Finance/Authorizations/Safety.antt =====
-- What every answer of `FinanceAuthorizations.authorize` leaves of the ledger.
use bonde_backend.Finance.Kept.{IsKept, unmoved-IsKept, post-IsKept}
use bonde_backend.Finance.Requests.{RawAuthorization, Request, read_request, Context}
use bonde_backend.Finance.Retirement.{mark_if}
use bonde_backend.Common.Table.{find_first}
use bonde_backend.Common.{◌≢◌, Option-cases}
use bonde_backend.Finance.Merchants.{observe}
use bonde_backend.Common.Http.{err, Result, ok_of_bind, ok}
use bonde_backend.Finance.Authorizations.Outcome.{
  observe-ledger, mark_if-ledger, decide-Moves, IsHeld,
}
use bonde_backend.Finance.Policy.{snapshot, Snapshot}
use bonde_backend.Finance.Runtime.{Runtime}
use bonde_backend.Finance.Authorizations.{
  is_owner, authorize, authorize_in_transaction, answer, answer_new, decide,
}
use bonde_backend.Finance.Ledger.{Store}
use bonde_backend.Common.{ℕ, ◌≡◌, ◌==◌, arith, refl, inl, inr}
use bonde_backend.Finance.Database.{
  Authorization, Card, Database, approved, ResponseCode, do_not_honour, insufficient_funds,
}

module _ (rt : Runtime) where
  held-IsKept : (c : Context) (s t : Store) → IsHeld rt c s t → IsKept s t
  held-IsKept c s t (inl (zero, same)) = unmoved-IsKept s t same
  held-IsKept c s t (inr posted) = post-IsKept _ _ _ _ s t posted

  -- What the whole call has done to the ledger.
  abbrev pub Settles : ResponseCode × Database → Store → Type 0
  Settles (approved, db') s = IsKept s db'.ledger
  Settles (_, db') s = db'.ledger ≡ s

  decided-Settles :
      (c : Context) (usage : Snapshot) (now : ℕ) (db : Database)
      (answered : ResponseCode × Database)
      → decide rt c usage now db ≡ ok answered
      → Settles answered db.ledger
  decided-Settles c usage now db (approved, db') h =
      held-IsKept c db.ledger db'.ledger (rw h at (decide-Moves rt c usage now db))
  decided-Settles c usage now db (do_not_honour, db') h = rw h at (decide-Moves rt c usage now db)
  decided-Settles c usage now db (insufficient_funds, db') h =
      rw h at (decide-Moves rt c usage now db)

  unmoved-Settles :
      (answered : ResponseCode × Database) (s : Store) → answered.1.ledger ≡ s → Settles answered s
  unmoved-Settles (approved, db') s same = unmoved-IsKept s db'.ledger same
  unmoved-Settles (do_not_honour, db') s same = same
  unmoved-Settles (insufficient_funds, db') s same = same

  new-Settles :
      (c : Context) (now : ℕ) (seen : Database) (answered : ResponseCode × Database)
      → answer_new rt c now seen ≡ ok answered
      → Settles answered seen.ledger
  unfolding answer_new
  new-Settles c now seen answered h =
      let (usage, measured, decided) =
        ok_of_bind (snapshot rt.parse rt.month_start c.card now seen) _ h in
      let key = rt.retire_key c.card.id in
      rw (mark_if-ledger rt key rt.new_operation c.card usage.reason now seen) at (
        decided-Settles c usage now (mark_if key rt.new_operation c.card usage.reason now seen)
          answered decided)

  answer-Settles :
      (request : Request) (card : Card) (now : ℕ) (db : Database)
      (answered : ResponseCode × Database)
      → answer rt request card now db ≡ ok answered
      → Settles answered db.ledger
  unfolding answer
  answer-Settles request card now db answered h =
      let ((identity, seen), observed, h₁) =
        ok_of_bind (observe rt.to_upper rt.new_identity card.user_id request.merchant db) _ h in
      let same =
        observe-ledger rt rt.to_upper rt.new_identity card.user_id request.merchant db observed in
      elim (Option-cases
        (find_first (λ (a : Authorization). a.id == request.id) seen.authorizations)) [
          | inl absent ↦ rw same at (
              new-Settles (record { request = request; card = card; identity = identity }) now seen
                answered (rw absent at h₁))
          | inr (a, found) ↦ unmoved-Settles answered db.ledger (ground (arith, h₁, found, same))
        ]

  transaction-Settles :
      (request : Request) (now : ℕ) (db : Database) (answered : ResponseCode × Database)
      → authorize_in_transaction rt request now db ≡ ok answered
      → Settles answered db.ledger
  unfolding authorize_in_transaction
  transaction-Settles request now db answered h =
      elim (Option-cases (find_first (is_owner request) db.cards)) [
        | inl absent ↦ unmoved-Settles answered db.ledger (ground (arith, absent, h))
        | inr (card, owned) ↦ answer-Settles request card now db answered (ground (arith, owned, h))
      ]

  authorize-Settles :
      (raw : RawAuthorization) (now : ℕ) (db : Database)
      → Settles (authorize rt raw now db) db.ledger
  unfolding authorize
  authorize-Settles raw now db = go (read_request rt.config raw) refl
    where
      go :
          (read : Result Request)
          → read_request rt.config raw ≡ read
          → Settles (authorize rt raw now db) db.ledger
      go (err e) same = rw (same, authorize) refl
      go (ok request) same = ran (authorize_in_transaction rt request now db) refl
        where
          ran :
              (result : Result (ResponseCode × Database))
              → authorize_in_transaction rt request now db ≡ result
              → Settles (authorize rt raw now db) db.ledger
          ran (err e) done = rw (same, done, authorize) refl
          ran (ok answered) done =
              rw (same, done, authorize) (transaction-Settles request now db answered done)

pub authorize-IsKept :
    (rt : Runtime) (raw : RawAuthorization) (now : ℕ) (db : Database)
    → IsKept db.ledger (authorize rt raw now db).1.ledger
authorize-IsKept rt raw now db = go (authorize rt raw now db) (authorize-Settles rt raw now db)
  where
    go :
        (answered : ResponseCode × Database)
        → Settles rt answered db.ledger
        → IsKept db.ledger answered.1.ledger
    go (approved, db') kept = kept
    go (do_not_honour, db') same = unmoved-IsKept db.ledger db'.ledger same
    go (insufficient_funds, db') same = unmoved-IsKept db.ledger db'.ledger same

-- An answer other than '00' leaves the ledger as it was.
pub authorize_declined :
    (rt : Runtime) (raw : RawAuthorization) (now : ℕ) (db : Database)
    → (authorize rt raw now db).0 ≢ approved
    → (authorize rt raw now db).1.ledger ≡ db.ledger
authorize_declined rt raw now db = go (authorize rt raw now db) (authorize-Settles rt raw now db)
  where
    go :
        (answered : ResponseCode × Database)
        → Settles rt answered db.ledger
        → answered.0 ≢ approved
        → answered.1.ledger ≡ db.ledger
    go (approved, db') kept refused = absurd (refused refl)
    go (do_not_honour, db') same refused = same
    go (insufficient_funds, db') same refused = same
