-- ===== src/Finance/Policy/Rows.antt =====
-- Figures of `FinancePolicy.snapshot` described row by row: what a sum or a count over a table's rows is,
-- without the query.
use bonde_backend.Common.{refl}
use bonde_backend.Finance.Policy.{distinct}
use bonde_backend.Common.{arith, ◌==◌, ◌↔◌, any}
use bonde_backend.Common.{Any}
use bonde_backend.Common.{
  ◌&&◌, ℕ, suc, ◌+◌, ◌≡◌, Bool, true, false, List, [], ◌∷◌, Bool-cases, inl, inr,
}
use bonde_backend.Common.Table.{find_many, count_where}

one_more : (n : ℕ) → suc n ≡ 1 + n
one_more n = omega arith

module _ {A : Type 0} where
  -- The sum of `f` over the rows that `P` holds of.
  pub data Total (P : A → Type 0) (f : A → ℕ) : List A → ℕ → Type 0 where
    no_rows : Total P f [] 0
    counted :
        {x : A} {rows : List A} {n : ℕ} → P x → Total P f rows n → Total P f (x ∷ rows) (f x + n)
    left_out : {x : A} {rows : List A} {n : ℕ} → ¬ P x → Total P f rows n → Total P f (x ∷ rows) n

  -- A test that decides `P`.
  pub record Decides (p : A → Bool) (P : A → Type 0) : Type 0 where
    pub holds_of : (x : A) → p x ≡ true → P x
    pub fails_of : (x : A) → p x ≡ false → ¬ P x

  abbrev pub sum_rows : (A → ℕ) → List A → ℕ
  sum_rows f [] = 0
  sum_rows f (x ∷ rows) = f x + sum_rows f rows

  -- A sum over the rows that a query reads.
  pub find_many-Total :
      {p : A → Bool} {P : A → Type 0} (f : A → ℕ) (rows : List A)
      → Decides p P
      → Total P f rows (sum_rows f (find_many p rows))
  find_many-Total f [] d = no_rows
  find_many-Total {p = p} f (x ∷ rows) d = elim (Bool-cases (p x)) [
    | inl holds ↦ rw holds (counted (d.holds_of x holds) (find_many-Total f rows d))
    | inr fails ↦ rw fails (left_out (d.fails_of x fails) (find_many-Total f rows d))
  ]

  -- A count over the rows that two tests in turn let pass.
  pub count_where-Total :
      (p q : A → Bool) {P : A → Type 0} (rows : List A)
      → Decides (λ x. p x && q x) P
      → Total P (λ x. 1) rows (count_where q (find_many p rows))
  count_where-Total p q [] d = no_rows
  count_where-Total p q (x ∷ rows) d =
      let rest = count_where-Total p q rows d in
      elim (Bool-cases (p x)) [
        | inl first ↦ elim (Bool-cases (q x)) [
          | inl second ↦
              rw (first, second, one_more (count_where q (find_many p rows)))
                (counted (d.holds_of x (rw (first, second) refl)) rest)
          | inr fails ↦ rw (first, fails) (left_out (d.fails_of x (rw (first, fails) refl)) rest)
        ]
        | inr fails ↦ rw fails (left_out (d.fails_of x (rw fails refl)) rest)
      ]

-- The lists that name each number once.
abbrev pub IsUnique : List ℕ → Type 0
IsUnique [] = Unit
IsUnique (x ∷ xs) = (¬ Any (λ y. y ≡ x) xs) × IsUnique xs

-- `distinct` keeps every number of a list, and each once.
pub any-Any : (n : ℕ) (ns : List ℕ) → any (λ m. m == n) ns ≡ true ↔ Any (λ m. m ≡ n) ns
any-Any n [] = (λ h. ground (arith, h), λ h. ground (arith, h))
any-Any n (m ∷ ns) =
    let (to, from) = any-Any n ns in (λ h. ground (arith, h, to), λ h. ground (arith, h, from))

pub distinct-Any : (n : ℕ) (ns : List ℕ) → Any (λ m. m ≡ n) (distinct ns) ↔ Any (λ m. m ≡ n) ns
unfolding distinct
distinct-Any n [] = (λ h. h, λ h. h)
distinct-Any n (m ∷ ns) =
    let (to, from) = distinct-Any n ns in
    let (found, back) = any-Any m (distinct ns) in
    (λ h. ground (arith, h, to, found, back), λ h. ground (arith, h, from, found, back))

pub distinct-IsUnique : (ns : List ℕ) → IsUnique (distinct ns)
unfolding distinct
distinct-IsUnique [] = tt
distinct-IsUnique (n ∷ ns) = elim (Bool-cases (any (λ m. m == n) (distinct ns))) [
  | inl there ↦ rw there (distinct-IsUnique ns)
  | inr absent ↦
      let found = (any-Any n (distinct ns)).1 in
      rw absent ((λ m. cc (found m)), distinct-IsUnique ns)
]
