-- ===== src/Common/Http.antt =====
-- What a handler throws, and handlers that may throw: NestJS's exceptions by class and message, the
-- finance module's `ProviderError`, a violated database constraint, and any other `Error`.
use Prim.Native.Nat.{ℕ}
use Prim.Native.String.{String}
use mathlib.Core.Path.{◌≡◌, refl}
use mathlib.Core.Bool.{Bool, true, false}
use mathlib.Core.Option.{Option, none, some}

pub data Exception : Type 0 where
  bad_request unauthorized forbidden not_found conflict unavailable : String → Exception
  provider_error : Bool → ℕ → Exception
  constraint_violation : Exception
  other_error : String → Exception

pub data Result (A : Type 0) : Type 0 where
  ok : A → Result A
  err : Exception → Result A

-- `await` of a call that may throw, and then the rest of the handler.
infixl 5 ◌>>=◌ ◌>>◌
abbrev pub ◌>>=◌ : {A B : Type 0} → Result A → (A → Result B) → Result B
err thrown >>= next = err thrown
ok value >>= next = next value

abbrev pub ◌>>◌ : {B : Type 0} → Result (Unit {0}) → Result B → Result B
err thrown >> next = err thrown
ok done >> next = next

-- `if (b) throw e`
abbrev pub throw_if : Bool → Exception → Result (Unit {0})
throw_if true e = err e
throw_if false e = ok tt

-- `findUniqueOrThrow`, and `if (!row) throw e`
abbrev pub or_throw : {A : Type 0} → Option A → Exception → Result A
or_throw none e = err e
or_throw (some a) e = ok a

-- A handler that returned got past its first call.
pub ok_of_bind :
    {A B : Type 0} {b : B} (call : Result A) (next : A → Result B)
    → (call >>= next) ≡ ok b
    → (value : A) × (call ≡ ok value) × (next value ≡ ok b)
ok_of_bind (err thrown) next h = cc
ok_of_bind (ok value) next h = (value, refl, h)

-- A guard that lets the call pass did not fire.
pub throw_if-ok :
    {A : Type 0} (b : Bool) (e : Exception) (m : Result A) {a : A}
    → (throw_if b e >> m) ≡ ok a
    → (b ≡ false) × (m ≡ ok a)
throw_if-ok true e m h = cc
throw_if-ok false e m h = (refl, h)

-- A row that was asked for was there.
pub or_throw-ok :
    {A : Type 0} (row : Option A) (e : Exception) {a : A} → or_throw row e ≡ ok a → row ≡ some a
or_throw-ok none e h = cc
or_throw-ok (some b) e h = cc
