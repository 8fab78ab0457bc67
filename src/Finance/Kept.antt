-- ===== src/Finance/Kept.antt =====
-- Runs that leave a valid ledger valid, and the sum of its balances as it was: the rules by which the
-- services that call `LedgerService.post` in a transaction are shown to be such runs.
use bonde_backend.Common.{arith, ℕ, ◌≡◌, refl, Bool, true, false, List, if◌then◌else◌, ◌∙◌}
use bonde_backend.Common.Http.{Exception, Result, ok, err, ◌>>=◌, ◌>>◌, throw_if}
use bonde_backend.Finance.Types.{Currency, AccountKey, Reference}
use bonde_backend.Finance.Ledger.{has_journal, Store, Posting, post}
use bonde_backend.Finance.Ledger.Sums.{total}
use bonde_backend.Finance.Ledger.Accounts.{IsValid}
use bonde_backend.Finance.Ledger.Journals.{post-journals, post-IsValid, post_conserves}
use bonde_backend.Finance.Database.{Database}

-- A ledger that is kept sound: the tables stay valid, no money appears or disappears, and no journal is
-- lost.
pub record IsKept (s t : Store) : Type 0 where
  pub valid : IsValid s → IsValid t
  pub conserved : IsValid s → (c : Currency) → total c t.accounts ≡ total c s.accounts
  pub recorded : (r : Reference) → has_journal r s ≡ true → has_journal r t ≡ true

pub unmoved-IsKept : (s t : Store) → t ≡ s → IsKept s t
unmoved-IsKept s t same =
    rw same (record { valid = λ v. v; conserved = λ v c. refl; recorded = λ r there. there })

pub IsKept-refl : (s : Store) → IsKept s s
IsKept-refl s = record { valid = λ v. v; conserved = λ v c. refl; recorded = λ r there. there }

pub IsKept-trans : {s t u : Store} → IsKept s t → IsKept t u → IsKept s u
IsKept-trans first second = record {
  valid = λ v. second.valid (first.valid v);
  conserved = λ v c. second.conserved (first.valid v) c ∙ first.conserved v c;
  recorded = λ r there. second.recorded r (first.recorded r there);
}

post-recorded :
    (before : AccountKey → AccountKey → Bool) (id : ℕ) (reference : Reference)
    (lines : List Posting) (s t : Store) (r : Reference)
    → post before id reference lines s ≡ ok t
    → has_journal r s ≡ true
    → has_journal r t ≡ true
post-recorded before id reference lines s t r posted there =
    rw (post-journals before id reference lines s t posted) (ground (arith, there))

pub post-IsKept :
    (before : AccountKey → AccountKey → Bool) (id : ℕ) (reference : Reference)
    (lines : List Posting) (s t : Store)
    → post before id reference lines s ≡ ok t
    → IsKept s t
post-IsKept before id reference lines s t posted = record {
  valid = λ v. post-IsValid before id reference lines s t v posted;
  conserved = λ v. post_conserves before id reference lines s t v posted;
  recorded = λ r there. post-recorded before id reference lines s t r posted there;
}

-- A run that throws leaves nothing; one that returns leaves a ledger that was kept sound.
abbrev pub Keeps : Store → Result Database → Type 0
Keeps s (ok db) = IsKept s db.ledger
Keeps s (err e) = Unit

module _ (s : Store) where
  pub ok-Keeps : (db : Database) → db.ledger ≡ s → Keeps s (ok db)
  ok-Keeps db same = unmoved-IsKept s db.ledger same

  pub bind-Keeps :
      {A : Type 0} (call : Result A) (next : A → Result Database)
      → ((a : A) → Keeps s (next a))
      → Keeps s (call >>= next)
  bind-Keeps (ok a) next h = h a
  bind-Keeps (err e) next h = tt

  pub guard-Keeps :
      (b : Bool) (e : Exception) (next : Result Database)
      → Keeps s next
      → Keeps s (throw_if b e >> next)
  guard-Keeps true e next h = tt
  guard-Keeps false e next h = h

  pub unit-Keeps :
      (call : Result (Unit {0})) (next : Result Database) → Keeps s next → Keeps s (call >> next)
  unit-Keeps (ok done) next h = h
  unit-Keeps (err e) next h = tt

  pub if-Keeps :
      (b : Bool) (x y : Result Database) → Keeps s x → Keeps s y → Keeps s (if b then x else y)
  if-Keeps true x y hx hy = hx
  if-Keeps false x y hx hy = hy

-- The part of a run that has a ledger for its result.
abbrev pub Posts : Store → Result Store → Type 0
Posts s (ok t) = IsKept s t
Posts s (err e) = Unit

module _ (s : Store) where
  pub post-Posts :
      (before : AccountKey → AccountKey → Bool) (id : ℕ) (reference : Reference)
      (lines : List Posting)
      → Posts s (post before id reference lines s)
  post-Posts before id reference lines = go (post before id reference lines s) refl
    where
      go : (result : Result Store) → post before id reference lines s ≡ result → Posts s result
      go (ok t) posted = post-IsKept before id reference lines s t posted
      go (err e) posted = tt

  pub ok-Posts : Posts s (ok s)
  ok-Posts = IsKept-refl s

  pub if-Posts :
      (b : Bool) (x y : Result Store) → Posts s x → Posts s y → Posts s (if b then x else y)
  if-Posts true x y hx hy = hx
  if-Posts false x y hx hy = hy

  pub posted-Keeps :
      (run : Result Store) (next : Store → Result Database)
      → Posts s run
      → ((t : Store) → IsKept s t → Keeps s (next t))
      → Keeps s (run >>= next)
  posted-Keeps (ok t) next h k = k t h
  posted-Keeps (err e) next h k = tt

-- A handler that calls another, and goes on.
pub call-Keeps :
    (s : Store) (first : Result Database) (next : Database → Result Database)
    → Keeps s first
    → ((db : Database) → IsKept s db.ledger → Keeps s (next db))
    → Keeps s (first >>= next)
call-Keeps s (err e) next h k = tt
call-Keeps s (ok db) next h k = k db h

-- A handler that calls another, which begins where `t` stands.
pub then-Keeps :
    (s t : Store) (first : Result Database) (next : Database → Result Database)
    → Keeps t first
    → IsKept s t
    → ((db : Database) → IsKept s db.ledger → Keeps s (next db))
    → Keeps s (first >>= next)
then-Keeps s t (err e) next h before k = tt
then-Keeps s t (ok db) next h before k = k db (IsKept-trans before h)

pub moved-Keeps : (s t : Store) (run : Result Database) → Keeps t run → IsKept s t → Keeps s run
moved-Keeps s t (ok db) after before = IsKept-trans before after
moved-Keeps s t (err e) after before = tt

pub ruleset kept_rules =
    (bind-Keeps, guard-Keeps, if-Keeps, posted-Keeps, post-Posts, ok-Posts, if-Posts, IsKept-refl)
