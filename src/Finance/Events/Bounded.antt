-- ===== src/Finance/Events/Bounded.antt =====
-- Runs that leave every authorization within its limits: the rules by which a handler is shown to be one.
use bonde_backend.Common.Table.{find_first}
use bonde_backend.Finance.Types.{Reference, Currency}
use bonde_backend.Finance.Projections.{project}
use bonde_backend.Finance.Database.{Wallet, UserAccount, TransactionType, Database}
use bonde_backend.Finance.Events.Limits.{AreWithin}
use bonde_backend.Common.Http.{
  other_error, or_throw, Exception, ◌>>=◌, ◌>>◌, Result, ok, err, throw_if,
}
use bonde_backend.Common.{ℕ, refl, ◌≡◌, true, false, Bool, Option, ◌==◌, if◌then◌else◌}

-- A handler that throws leaves nothing; one that returns leaves authorizations within their limits.
abbrev pub Bounded : Result Database → Type 0
Bounded (ok db) = AreWithin db.authorizations
Bounded (err e) = Unit

pub bind-Bounded :
    {A : Type 0} (call : Result A) (next : A → Result Database)
    → ((a : A) → call ≡ ok a → Bounded (next a))
    → Bounded (call >>= next)
bind-Bounded (ok a) next h = h a refl
bind-Bounded (err e) next h = tt

pub call-Bounded :
    (first : Result Database) (next : Database → Result Database)
    → Bounded first
    → ((db : Database) → AreWithin db.authorizations → Bounded (next db))
    → Bounded (first >>= next)
call-Bounded (ok db) next h k = k db h
call-Bounded (err e) next h k = tt

pub guard-Bounded :
    (b : Bool) (e : Exception) (next : Result Database)
    → (b ≡ false → Bounded next)
    → Bounded (throw_if b e >> next)
guard-Bounded true e next h = tt
guard-Bounded false e next h = h refl

pub if-Bounded :
    (b : Bool) (x y : Result Database)
    → (b ≡ true → Bounded x)
    → (b ≡ false → Bounded y)
    → Bounded (if b then x else y)
if-Bounded true x y hx hy = hx refl
if-Bounded false x y hx hy = hy refl

pub project-Bounded :
    (id user : ℕ) (type : TransactionType) (amount : ℕ) (currency : Currency)
    (reference : Reference) (card : Option ℕ) (db : Database)
    → AreWithin db.authorizations
    → Bounded (project id user type amount currency reference card db)
unfolding project
project-Bounded id user type amount currency reference card db all =
    bind-Bounded
      (or_throw (find_first (λ (a : UserAccount). a.user_id == user) db.accounts)
        (other_error "No Account found"))
      _
      (λ account h.
        bind-Bounded
          (or_throw (find_first (λ (w : Wallet). w.account_id == account.id) db.wallets)
            (other_error "No Wallet found"))
          _ (λ wallet h'. all))
