-- ===== src/Finance/Worker/Searches.antt =====
-- What a search through a provider's pages finds.
use bonde_backend.Finance.Providers.{read_string}
use bonde_backend.Common.{◌⊎◌, length}
use bonde_backend.Common.Http.{◌>>=◌, Result, ok_of_bind, ok}
use bonde_backend.Finance.Worker.Reconcile.{
  read_matches, read_page, of_operation, Listed, Pages, search_pages,
}
use bonde_backend.Common.{
  ℕ, suc, zero, ◌+◌, ◌<◌, ◌≤◌, refl, ◌≡◌, [], ◌∷◌, List, Option, none, some, arith, inl, inr,
}

-- What one page has decided, unless a later one did.
read_matches-Found :
    (rows : List Listed) (size id : ℕ) (rest : Result (Option ℕ))
    → read_matches rows size rest ≡ ok (some id)
    → ((row : Listed) × (rows ≡ row ∷ []) × (row.id ≡ some id)) ⊎ (rest ≡ ok (some id))
read_matches-Found [] size id rest h = ground (arith, h)
read_matches-Found (row ∷ []) size id rest h = inl (row, refl, go row.id h)
  where
    go :
        (found : Option ℕ)
        → (read_string found >>= λ n. ok (some n)) ≡ ok (some id)
        → found ≡ some id
    go none same = cc
    go (some n) same = cc
read_matches-Found (row ∷ other ∷ more) size id rest h = cc

-- The page `p` names the operation in one row alone, which has the id.
pub record IsMatch (op : ℕ) (pages : Pages) (id p : ℕ) : Type 0 where
  pub rows : List Listed
  pub row : Listed
  pub read : pages p ≡ ok (some rows)
  pub alone : of_operation op rows ≡ row ∷ []
  pub named : row.id ≡ some id

-- A search that finds an id has read it on one of the pages it may read, where one row alone names the
-- operation and has that id: a call is never taken for another operation's.
pub search_pages_lem :
    (op : ℕ) (pages : Pages) (page left id : ℕ)
    → search_pages op pages page left ≡ ok (some id)
    → (p : ℕ) × (page ≤ p) × (p < page + left) × IsMatch op pages id p
unfolding search_pages
search_pages_lem op pages page zero id h = cc
search_pages_lem op pages page (suc left) id h =
    let (answer, read, h₁) = ok_of_bind (pages page) _ h in
    go (search_pages_lem op pages (suc page) left id) answer read h₁
  where
    go :
        (search_pages op pages (suc page) left ≡ ok (some id)
          → (p : ℕ) × (suc page ≤ p) × (p < suc page + left) × IsMatch op pages id p)
        → (answer : Option (List Listed)) → pages page ≡ ok answer
        → read_page op answer (search_pages op pages (suc page) left) ≡ ok (some id)
        → (p : ℕ) × (page ≤ p) × (p < page + suc left) × IsMatch op pages id p
    go later none read same = cc
    go later (some rows) read same =
        elim (read_matches-Found (of_operation op rows) (length rows) id _ same) [
          | inl (row, alone, named) ↦ (
            page,
            omega arith,
            omega arith,
            record { rows = rows; row = row; read = read; alone = alone; named = named },
          )
          | inr deeper ↦
              let (p, low, high, match) = later deeper in (p, omega arith, omega arith, match)
        ]
