-- ===== src/Finance/Policy/Usage.antt =====
-- What the figures of `FinancePolicy.snapshot` say about the rows it has read.
use bonde_backend.Common.{refl}
use bonde_backend.Finance.Ledger.{currency_eq}
use bonde_backend.Common.{map, leb}
use bonde_backend.Common.{Any}
use bonde_backend.Finance.Policy.Rows.{
  any-Any, count_where-Total, distinct-Any, distinct-IsUnique, find_many-Total, IsUnique, Decides,
  Total, sum_rows,
}
use bonde_backend.Common.{◌↔◌, any}
use bonde_backend.Common.Table.{find_many, count_where}
use bonde_backend.Common.{not, ltb}
use bonde_backend.Common.{length}
use bonde_backend.Finance.Policy.{
  reserved, is_held, settled_in_month, sum_amounts, completed, is_purchase, holds, snapshot,
  Snapshot, sum_remaining,
}
use bonde_backend.Common.{
  ℕ, ◌+◌, ◌≤◌, ◌≡◌, arith, ◌&&◌, ◌==◌, ap, subst, Option, List, [], ◌∷◌, Bool, true,
}
use bonde_backend.Common.Http.{Result, ok, err, ok_of_bind, throw_if-ok}
use bonde_backend.Common.Text.{Text}
use bonde_backend.Finance.Database.{
  RetirementReason, purchase, held, Capture, Card, Authorization, Database,
}
use bonde_backend.Finance.CardRules.{CardRules}

-- What remains of the holds, with what was settled and released, is what was held at first.
sum_remaining-balances :
    (rows : List Authorization) (n : ℕ)
    → sum_remaining rows ≡ ok n
    → n + sum_rows (λ a. a.settled) rows + sum_rows (λ a. a.released) rows
      ≡ sum_rows (λ a. a.amount) rows
unfolding sum_remaining
sum_remaining-balances [] n h = ground (arith, h)
sum_remaining-balances (a ∷ rows) n h =
    let (within, h₁) = throw_if-ok (ltb a.amount (a.settled + a.released)) _ _ h in
    let (rest, summed, added) = ok_of_bind (sum_remaining rows) _ h₁ in
    ground (arith, within, added, sum_remaining-balances rows rest summed)

count_where-length : {A : Type 0} (p : A → Bool) (rows : List A) → count_where p rows ≤ length rows
count_where-length p [] = omega arith
count_where-length p (x ∷ rows) = ground (arith, count_where-length p rows)

-- What the rows are, by their columns.
abbrev pub IsSettledIn : Card → ℕ → Capture → Type 0
IsSettledIn card month c =
    (c.card_id ≡ card.id) × (month ≤ c.booked_at) × (c.currency ≡ card.currency)

abbrev pub IsHoldOf : Card → Authorization → Type 0
IsHoldOf card a = (a.card_id ≡ card.id) × (a.status ≡ held)

abbrev pub IsPurchaseIn : Card → ℕ → Capture → Type 0
IsPurchaseIn card id c = (c.card_id ≡ card.id) × (c.is_purchase ≡ true) × (c.authorization_id ≡ id)

-- A hold of the card for a purchase that none of the captures completes.
abbrev pub IsOpenPurchase : Card → List ℕ → Authorization → Type 0
IsOpenPurchase card used a =
    IsHoldOf card a × (a.request_type ≡ purchase) × (¬ Any (λ id. id ≡ a.id) used)

-- What the figures of a snapshot are in the rows of the tables, `month` being the start of the month.
pub record IsMeasured (card : Card) (month : ℕ) (db : Database) (u : Snapshot) : Type 0 where
  pub settled : Total (IsSettledIn card month) (λ c. c.amount) db.captures u.settled
  pub in_holds : ℕ
  pub paid : ℕ
  pub freed : ℕ
  pub held_first : Total (IsHoldOf card) (λ a. a.amount) db.authorizations in_holds
  pub held_paid : Total (IsHoldOf card) (λ a. a.settled) db.authorizations paid
  pub held_freed : Total (IsHoldOf card) (λ a. a.released) db.authorizations freed
  pub still_held : u.held + paid + freed ≡ in_holds
  pub spent : u.spent ≡ u.settled + u.held
  pub used : List ℕ
  pub each_once : IsUnique used
  pub used_by : (id : ℕ) → Any (λ n. n ≡ id) used ↔ Any (IsPurchaseIn card id) db.captures
  pub completed_uses : u.completed_uses ≡ length used
  pub open_uses : ℕ
  pub opened : Total (IsOpenPurchase card used) (λ a. 1) db.authorizations open_uses
  pub uses : u.uses ≡ u.completed_uses + open_uses

settled_test :
    (card : Card) (month : ℕ)
    → Decides
        (λ (c : Capture).
          c.card_id == card.id && leb month c.booked_at && currency_eq c.currency card.currency)
        (IsSettledIn card month)
settled_test card month = record {
  holds_of = λ c h. ground (arith, h);
  fails_of = λ c h settles. ground (arith, h, settles);
}

hold_test :
    (card : Card)
    → Decides (λ (a : Authorization). a.card_id == card.id && is_held a) (IsHoldOf card)
hold_test card = record {
  holds_of = λ a h. ground (arith, h);
  fails_of = λ a h hold. ground (arith, h, hold);
}

open_test :
    (card : Card) (used : List ℕ)
    → Decides
        (λ (a : Authorization).
          (a.card_id == card.id && is_held a)
          && (is_purchase a && not (any (λ id. id == a.id) used)))
        (IsOpenPurchase card used)
open_test card used = record {
  holds_of = λ a h. ground (arith, h, any-Any a.id used);
  fails_of = λ a h opened. ground (arith, h, opened, any-Any a.id used);
}

-- The authorizations of the card's purchases.
completed-Any :
    (card : Card) (id : ℕ) (rows : List Capture)
    → Any
        (λ n. n ≡ id)
        (map
          (λ (c : Capture). c.authorization_id)
          (find_many (λ (c : Capture). c.card_id == card.id && c.is_purchase) rows))
      ↔ Any (IsPurchaseIn card id) rows
completed-Any card id [] = (λ h. h, λ h. h)
completed-Any card id (c ∷ rows) =
    let (to, from) = completed-Any card id rows in
    (λ h. ground (arith, h, to), λ h. ground (arith, h, from))

sum_amounts-sum_rows :
    (rows : List Capture) → sum_amounts rows ≡ sum_rows (λ (c : Capture). c.amount) rows
unfolding sum_amounts
sum_amounts-sum_rows [] = refl
sum_amounts-sum_rows (c ∷ rows) = ground (arith, sum_amounts-sum_rows rows)

module _ (parse : Text → Option ℕ) (month_start : ℕ → ℕ) (card : Card) (now : ℕ) (db : Database)
    (u : Snapshot) where
  IsMeasured-rows :
      (n : ℕ) (valid : Bool) (rule : CardRules) (reason : Option RetirementReason) (deadline : ℕ)
      → sum_remaining (holds card db) ≡ ok n
      → IsMeasured card (month_start now) db (record {
        rule = rule;
        controls_valid = valid;
        spent = settled_in_month parse month_start card now db + n;
        settled = settled_in_month parse month_start card now db;
        held = n;
        uses = length (completed card db) + reserved parse month_start card db;
        completed_uses = length (completed card db);
        reason = reason;
        deadline = deadline;
      })
  unfolding settled_in_month completed
  IsMeasured-rows n valid rule reason deadline summed = record {
    settled =
        rw
          (sum_amounts-sum_rows (
            find_many
              (λ (c : Capture).
                c.card_id == card.id
                && leb (month_start now) c.booked_at
                && currency_eq c.currency card.currency)
              db.captures))
          (find_many-Total (λ (c : Capture). c.amount) db.captures
            (settled_test card (month_start now)));
    in_holds = sum_rows (λ a. a.amount) (holds card db);
    paid = sum_rows (λ a. a.settled) (holds card db);
    freed = sum_rows (λ a. a.released) (holds card db);
    held_first = find_many-Total (λ a. a.amount) db.authorizations (hold_test card);
    held_paid = find_many-Total (λ a. a.settled) db.authorizations (hold_test card);
    held_freed = find_many-Total (λ a. a.released) db.authorizations (hold_test card);
    still_held = sum_remaining-balances (holds card db) n summed;
    spent = refl;
    used = completed card db;
    each_once = distinct-IsUnique _;
    used_by = λ id.
        let (to, from) = distinct-Any id (
          map (λ (c : Capture). c.authorization_id)
            (find_many (λ (c : Capture). c.card_id == card.id && c.is_purchase) db.captures)) in
        let (to', from') = completed-Any card id db.captures in
        (λ h. to' (to h), λ h. from (from' h));
    completed_uses = refl;
    open_uses = reserved parse month_start card db;
    opened =
        count_where-Total (λ (a : Authorization). a.card_id == card.id && is_held a)
          (λ (a : Authorization). is_purchase a && not (any (λ id. id == a.id) (completed card db)))
          db.authorizations (open_test card (completed card db));
    uses = refl;
  }

  -- A snapshot that returns reports as settled the captures of the card booked from the start of the month
  -- of `now` on, in its currency; as held what its holds reserve, less what was settled and released of
  -- them; as spent both; as completed uses the authorizations, each once, that a purchase of the card was
  -- captured of; and as uses these and its holds for purchases that are none of them.
  pub snapshot_measures :
      snapshot parse month_start card now db ≡ ok u → IsMeasured card (month_start now) db u
  unfolding snapshot
  snapshot_measures h =
      let (held_now, summed, built) = ok_of_bind (sum_remaining (holds card db)) _ h in
      let value : Result Snapshot → Snapshot = λ r. elim r [ ok v ↦ v | err e ↦ u ] in
      subst (IsMeasured card (month_start now) db) (ap value built)
        (IsMeasured-rows held_now _ _ _ _ summed)
