-- ===== src/Finance/Events/Settlements.antt =====
-- The settlement of purchases keeps every authorization within its limits.
use bonde_backend.Finance.Events.Bounded.{
  Bounded, bind-Bounded, call-Bounded, guard-Bounded, if-Bounded, project-Bounded,
}
use bonde_backend.Finance.Ledger.{post}
use bonde_backend.Finance.Policy.{is_purchase, is_held, snapshot}
use bonde_backend.Finance.Events.{find_authorization, find_inbox}
use bonde_backend.Common.Table.{find_first}
use bonde_backend.Finance.Operations.{attempt, find_card, finished, transact}
use bonde_backend.Finance.Types.{Prefix}
use bonde_backend.Finance.Retirement.{is_cancelled, retire_now, enqueue, mark, mark_if}
use bonde_backend.Finance.Events.Transactions.{
  capture_postings, refund_postings, reversal_postings, find_settled, read_settlement, of_card,
  is_settled, reversal_row, is_processed, refund_row, capture_row, wants_alerts, settle_nothing,
  Settlement, RemoteTransaction, settle_in_transaction, settle_open, settle, refund, reverse_hold,
  capture, budget_alerts, transaction_event,
}
use bonde_backend.Finance.Runtime.{Runtime}
use bonde_backend.Finance.Database.{RetirementReason, Authorization, Card, Database}
use bonde_backend.Finance.Events.Limits.{
  IsWithin, has_id, AreWithin, update-AreWithin, found-IsWithin,
}
use bonde_backend.Common.Http.{or_throw-ok, provider_error, or_throw, Result, ok, err}
use bonde_backend.Common.{
  ◌||◌, ap, ◌∙◌, ℕ, ◌+◌, refl, ◌≡◌, true, false, Bool, Option, none, some, arith, ◌==◌, ◌&&◌, not,
  is_some, ltb,
}

module _ (rt : Runtime) where
  budget_alerts-Bounded :
      (card : Card) (amount now : ℕ) (db : Database)
      → AreWithin db.authorizations
      → Bounded (budget_alerts rt card amount now db)
  unfolding budget_alerts
  budget_alerts-Bounded card amount now db all =
      if-Bounded (is_some card.monthly_limit && wants_alerts card) _ _
        (λ wants. bind-Bounded (snapshot rt.parse rt.month_start card now db) _ (λ usage h. all))
        (λ silent. all)

  mark_if-authorizations :
      (key fresh : ℕ) (card : Card) (reason : Option RetirementReason) (now : ℕ) (db : Database)
      → (mark_if key fresh card reason now db).authorizations ≡ db.authorizations
  unfolding mark_if mark enqueue retire_now
  mark_if-authorizations key fresh card none now db = refl
  mark_if-authorizations key fresh card (some reason) now db = ground arith

  capture-Bounded :
      (t : Settlement) (current : Card) (now : ℕ) (db : Database)
      → find_first (has_id t.auth.id) db.authorizations ≡ some t.auth
      → AreWithin db.authorizations
      → Bounded (capture rt t current now db)
  unfolding capture
  capture-Bounded t current now db found all =
      guard-Bounded (ltb t.auth.amount (t.auth.settled + t.amount + t.auth.released))
        (provider_error false 409) _
        (λ low.
          bind-Bounded
            (post rt.before rt.new_journal (record { prefix = Prefix.capture; id = t.id })
              (capture_postings t) db.ledger)
            _
            (λ ledger h.
              call-Bounded _ _
                (project-Bounded _ _ _ _ _ _ _ _ (
                  update-AreWithin (capture_row t.amount) (λ a. refl) t.auth.id db.authorizations
                    t.auth found (captured low) all))
                (λ shown a₁.
                  call-Bounded _ _ (budget_alerts-Bounded t.card t.amount now _ a₁) (λ alerted a₂.
                    bind-Bounded (snapshot rt.parse rt.month_start current now alerted) _
                      (λ usage h'.
                        rw
                          (mark_if-authorizations (rt.retire_key current.id) rt.new_operation
                            current usage.reason now alerted)
                          a₂)))))
    where
      captured :
          ltb t.auth.amount (t.auth.settled + t.amount + t.auth.released) ≡ false
          → IsWithin (capture_row t.amount t.auth)
      captured low =
          let ((low_enough, returned), same) =
            found-IsWithin t.auth.id db.authorizations t.auth found all in
          (ground (arith, low), ground (arith, returned))

  reverse_hold-Bounded :
      (t : Settlement) (db : Database)
      → find_first (has_id t.auth.id) db.authorizations ≡ some t.auth
      → (t.auth.settled == 0 && is_held t.auth) ≡ true
      → AreWithin db.authorizations
      → Bounded (reverse_hold rt t db)
  unfolding reverse_hold
  reverse_hold-Bounded t db found unsettled all =
      guard-Bounded (ltb t.auth.amount (t.auth.released + t.amount)) (provider_error false 409) _
        (λ low.
          bind-Bounded
            (post rt.before rt.new_journal (record { prefix = Prefix.reversal; id = t.id })
              (reversal_postings t) db.ledger)
            _
            (λ ledger h.
              update-AreWithin (reversal_row t.amount) (λ a. refl) t.auth.id db.authorizations
                t.auth found (returned low) all))
    where
      returned :
          ltb t.auth.amount (t.auth.released + t.amount) ≡ false
          → IsWithin (reversal_row t.amount t.auth)
      returned low =
          let ((kept, refunded), same) =
            found-IsWithin t.auth.id db.authorizations t.auth found all in
          (ground (arith, low, unsettled), refunded)

  refund-Bounded :
      (t : Settlement) (to_wallet : Bool) (db : Database)
      → find_first (has_id t.auth.id) db.authorizations ≡ some t.auth
      → AreWithin db.authorizations
      → Bounded (refund rt t to_wallet db)
  unfolding refund
  refund-Bounded t to_wallet db found all =
      guard-Bounded (ltb t.auth.settled (t.auth.refunded + t.amount)) (provider_error false 409) _
        (λ low.
          bind-Bounded
            (post rt.before rt.new_journal (record { prefix = Prefix.refund; id = t.id })
              (refund_postings t to_wallet) db.ledger)
            _
            (λ ledger h.
              call-Bounded _ _
                (project-Bounded _ _ _ _ _ _ _ _ (
                  update-AreWithin (refund_row t.amount) (λ a. refl) t.auth.id db.authorizations
                    t.auth found (paid_back low) all))
                (λ shown a₁. a₁)))
    where
      paid_back :
          ltb t.auth.settled (t.auth.refunded + t.amount) ≡ false
          → IsWithin (refund_row t.amount t.auth)
      paid_back low =
          let ((kept, refunded), same) =
            found-IsWithin t.auth.id db.authorizations t.auth found all in
          (kept, ground (arith, low))

  settle-Bounded :
      (t : Settlement) (refunds : Bool) (now : ℕ) (db : Database)
      → find_first (has_id t.auth.id) db.authorizations ≡ some t.auth
      → AreWithin db.authorizations
      → Bounded (settle rt t refunds now db)
  unfolding settle
  settle-Bounded t refunds now db found all = bind-Bounded (find_card t.card.id db) _ (λ current h.
      if-Bounded (is_settled t refunds db.ledger) _ _ (λ again. all)
        (λ first.
          if-Bounded refunds _ _
            (λ refunding.
              if-Bounded (t.auth.settled == 0 && is_held t.auth) _ _
                (λ unsettled. reverse_hold-Bounded t db found unsettled all)
                (λ captured.
                  refund-Bounded t (is_some current.retired_at || is_cancelled current) db found
                    all))
            (λ capturing. capture-Bounded t current now db found all)))

  settle_open-Bounded :
      (inbox id amount auth_id : ℕ) (card : Card) (refunds : Bool) (now : ℕ) (db : Database)
      → AreWithin db.authorizations
      → Bounded (settle_open rt inbox id amount auth_id card refunds now db)
  unfolding settle_open settle_nothing
  settle_open-Bounded inbox id amount auth_id card refunds now db all =
      bind-Bounded (or_throw (find_authorization auth_id db) (provider_error false 409)) _
        (λ auth h.
          guard-Bounded (not (auth.card_id == card.id)) (provider_error false 409) _ (λ owned.
            if-Bounded (amount == 0) _ _
              (λ nothing.
                guard-Bounded (is_purchase auth) (provider_error true 409) _ (λ verifies. all))
              (λ something.
                settle-Bounded
                  (record { inbox = inbox; id = id; amount = amount; auth = auth; card = card })
                  refunds now db (there auth h) all)))
    where
      there :
          (auth : Authorization)
          → or_throw (find_authorization auth_id db) (provider_error false 409) ≡ ok auth
          → find_first (has_id auth.id) db.authorizations ≡ some auth
      there auth h =
          let found = or_throw-ok (find_authorization auth_id db) (provider_error false 409) h in
          let (within, same) = found-IsWithin auth_id db.authorizations auth found all in
          ap (λ n. find_first (has_id n) db.authorizations) same ∙ found

  settle_in_transaction-Bounded :
      (inbox id amount auth_id : ℕ) (card : Card) (refunds : Bool) (now : ℕ) (db : Database)
      → AreWithin db.authorizations
      → Bounded (settle_in_transaction rt inbox id amount auth_id card refunds now db)
  unfolding settle_in_transaction
  settle_in_transaction-Bounded inbox id amount auth_id card refunds now db all =
      bind-Bounded (find_inbox inbox db) _ (λ row h.
        if-Bounded (is_processed row) _ _ (λ done. all)
          (λ open_row. settle_open-Bounded inbox id amount auth_id card refunds now db all))

-- Whatever the issuer reports of a purchase or a refund, and whether the handler throws or not, if no
-- authorization had more captured and given back than was held, or more refunded than was captured, and
-- their ids were different, then it is so after the report.
pub transaction_event-AreWithin :
    (rt : Runtime) (inbox id : ℕ) (refunds : Bool) (answer : Result RemoteTransaction) (now : ℕ)
    (db : Database)
    → AreWithin db.authorizations
    → AreWithin (transaction_event rt inbox id refunds answer now db).0.authorizations
unfolding transaction_event
transaction_event-AreWithin rt inbox id refunds answer now db all =
    found (find_settled id answer db)
  where
    settled_by :
        (noted : Database)
        → AreWithin noted.authorizations
        → (run : Result Database) → Bounded run
        → AreWithin (transact noted run finished).0.authorizations
    settled_by noted kept (ok after) h = h
    settled_by noted kept (err e) h = kept

    read :
        (card : Card) (noted : Database)
        → AreWithin noted.authorizations
        → (r : Result (ℕ × ℕ))
        → AreWithin
            (attempt noted r (λ p.
              transact noted
                (settle_in_transaction rt inbox id p.0 p.1 card refunds now noted)
                finished)).0.authorizations
    read card noted kept (err e) = kept
    read card noted kept (ok (amount, auth_id)) =
        settled_by noted kept _
          (settle_in_transaction-Bounded rt inbox id amount auth_id card refunds now noted kept)

    found :
        (r : Result (RemoteTransaction × Card))
        → AreWithin
            (attempt db r (λ p.
              let noted : Database = of_card inbox p.1.id db in
              attempt noted (read_settlement p.0 p.1) (λ q.
                transact noted
                  (settle_in_transaction rt inbox id q.0 q.1 p.1 refunds now noted)
                  finished))).0.authorizations
    found (err e) = all
    found (ok (remote, card)) =
        read card (of_card inbox card.id db) all (read_settlement remote card)
