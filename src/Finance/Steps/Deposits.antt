-- ===== src/Finance/Steps/Deposits.antt =====
-- A transfer that the bank reports again, however much later, is not credited again.
use bonde_backend.Finance.Events.Safety.{create_operation-Keeps}
use bonde_backend.Finance.Operations.Safety.{project-Keeps}
use bonde_backend.Finance.Ledger.Journals.{post-journals}
use bonde_backend.Finance.Operations.{or_else, with_ledger}
use bonde_backend.Finance.Projections.{project}
use bonde_backend.Finance.Steps.{Steps-IsKept, Steps}
use bonde_backend.Finance.Kept.{moved-Keeps, IsKept-refl, then-Keeps, IsKept, Keeps}
use bonde_backend.Finance.Database.{deposit, Database, Customer}
use bonde_backend.Finance.Ledger.{Posting, post, has_journal, Store}
use bonde_backend.Finance.Events.Bank.{
  sweep_operation, create_operation, deposit_postings, deposit_now, deposit_in_transaction,
}
use bonde_backend.Finance.Runtime.{Runtime}
use bonde_backend.Finance.Types.{ngn, AccountKey, Prefix, Reference}
use bonde_backend.Common.{ap, ℕ, refl, ◌≡◌, none, List, true, false, Bool, arith, if◌then◌else◌}
use bonde_backend.Common.Http.{ok_of_bind, ok, Result, ◌>>=◌}

abbrev pub deposit_reference : ℕ → Reference
deposit_reference id = record { prefix = Prefix.deposit; id = id }

pub posted-recorded :
    (before : AccountKey → AccountKey → Bool) (id : ℕ) (r : Reference) (lines : List Posting)
    (s t : Store)
    → post before id r lines s ≡ ok t
    → has_journal r t ≡ true
posted-recorded before id r lines s t posted =
    rw (post-journals before id r lines s t posted) (ground arith)

returned-IsKept :
    (s : Store) (run : Result Database) (db : Database)
    → run ≡ ok db
    → Keeps s run
    → IsKept s db.ledger
returned-IsKept s run db same kept = rw same at kept

module _ (rt : Runtime) where
  shown-Keeps :
      (customer : Customer) (id amount : ℕ) (reference : Reference) (db : Database)
      → Keeps db.ledger (
          project rt.new_transaction customer.user_id deposit amount ngn reference none db
          >>= λ shown. create_operation (sweep_operation rt customer id amount) shown)
  shown-Keeps customer id amount reference db =
      then-Keeps db.ledger db.ledger _ _ (project-Keeps _ _ _ _ _ _ _ db) (IsKept-refl db.ledger)
        (λ shown before.
          moved-Keeps db.ledger shown.ledger _ (create_operation-Keeps _ shown) before)

  deposit_now-recorded :
      (customer : Customer) (id amount : ℕ) (db db' : Database)
      → deposit_now rt customer id amount db ≡ ok db'
      → has_journal (deposit_reference id) db'.ledger ≡ true
  unfolding deposit_now
  deposit_now-recorded customer id amount db db' h =
      let lines = deposit_postings customer.user_id amount in
      let (t, posted, h₁) =
        ok_of_bind (post rt.before rt.new_journal (deposit_reference id) lines db.ledger) _ h in
      let kept =
        returned-IsKept t _ db' h₁
          (shown-Keeps customer id amount (deposit_reference id) (with_ledger db t)) in
      kept.recorded (deposit_reference id)
        (posted-recorded rt.before rt.new_journal (deposit_reference id) lines db.ledger t posted)

  deposited-recorded :
      (customer : Customer) (inbox id amount : ℕ) (db db' : Database)
      → deposit_in_transaction rt customer inbox id amount db ≡ ok db'
      → has_journal (deposit_reference id) db'.ledger ≡ true
  unfolding deposit_in_transaction
  deposited-recorded customer inbox id amount db db' h =
      let (d, first, e) =
        ok_of_bind
          (if has_journal (deposit_reference id) db.ledger
            then ok db
            else deposit_now rt customer id amount db)
          _ h in
      let same : d.ledger ≡ db'.ledger = ap (λ r. (or_else r db).ledger) e in
      rw same at (go d (has_journal (deposit_reference id) db.ledger) refl first)
    where
      go :
          (d : Database) (b : Bool)
          → has_journal (deposit_reference id) db.ledger ≡ b
          → (if b then ok db else deposit_now rt customer id amount db) ≡ ok d
          → has_journal (deposit_reference id) d.ledger ≡ true
      go d true there first = rw (ap (λ r. (or_else r db).ledger) first) at there
      go d false there first = deposit_now-recorded customer id amount db d first

-- After a deposit has been recorded, no later report of the same transfer that returns moves any money,
-- whatever it says, and whatever has happened to the tables in between.
pub deposit_once :
    (rt rt' : Runtime) (customer customer' : Customer) (inbox inbox' id amount amount' : ℕ)
    (db db₁ db₂ db₃ : Database)
    → deposit_in_transaction rt customer inbox id amount db ≡ ok db₁
    → Steps db₁ db₂
    → deposit_in_transaction rt' customer' inbox' id amount' db₂ ≡ ok db₃
    → db₃.ledger ≡ db₂.ledger
unfolding deposit_in_transaction
deposit_once rt rt' customer customer' inbox inbox' id amount amount' db db₁ db₂ db₃ h steps again =
    let there =
      (Steps-IsKept steps).recorded (deposit_reference id)
        (deposited-recorded rt customer inbox id amount db db₁ h) in
    grind (arith, there, again)
