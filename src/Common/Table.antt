-- ===== src/Common/Table.antt =====
-- Database tables as lists of rows, the newest row first, and the Prisma calls that the services
-- make on them: `findFirst`, `findMany`, `count`, `updateMany`.
use Prim.Native.Nat.{ℕ, suc}
use mathlib.Core.Bool.{Bool}
use mathlib.Core.Path.{◌≡◌}
use native.Mathlib.Omega.{arith}
use mathlib.Core.Option.{Option, none, some}
use mathlib.Core.List.{List, [], ◌∷◌}
use bonde_backend.Common.Tests.{if◌then◌else◌}

module _ {A : Type 0} where
  -- `findFirst({ where })`; also `findUnique`, where the test fixes a unique column.
  abbrev pub find_first : (A → Bool) → List A → Option A
  find_first p [] = none
  find_first p (x ∷ xs) = if p x then some x else find_first p xs

  -- `findMany({ where })`
  abbrev pub find_many : (A → Bool) → List A → List A
  find_many p [] = []
  find_many p (x ∷ xs) = if p x then x ∷ find_many p xs else find_many p xs

  -- `count({ where })`, and the `count` that `updateMany` returns.
  abbrev pub count_where : (A → Bool) → List A → ℕ
  count_where p [] = 0
  count_where p (x ∷ xs) = if p x then suc (count_where p xs) else count_where p xs

  -- `updateMany({ where, data })`
  abbrev pub update_many : (A → Bool) → (A → A) → List A → List A
  update_many p f [] = []
  update_many p f (x ∷ xs) = (if p x then f x else x) ∷ update_many p f xs

  -- `deleteMany({ where })`
  abbrev pub delete_many : (A → Bool) → List A → List A
  delete_many p [] = []
  delete_many p (x ∷ xs) = if p x then delete_many p xs else x ∷ delete_many p xs

  -- A row that an update keeps in its place is found with the update.
  pub find_first-update_many :
      (p : A → Bool) (f : A → A)
      → ((x : A) → p (f x) ≡ p x)
      → (rows : List A) {row : A} → find_first p rows ≡ some row
      → find_first p (update_many p f rows) ≡ some (f row)
  find_first-update_many p f same [] h = cc
  find_first-update_many p f same (x ∷ xs) {row = row} h =
      ground (arith, find_first-update_many p f same xs {row = row}, same x)
