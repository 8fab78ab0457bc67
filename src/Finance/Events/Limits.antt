-- ===== src/Finance/Events/Limits.antt =====
-- What is settled, released and refunded of an authorization stays within what was held.
use bonde_backend.Common.{◌∙◌, if◌then◌else◌}
use bonde_backend.Common.Table.{update_many, find_first, count_where}
use bonde_backend.Finance.Database.{Authorization}
use bonde_backend.Common.{
  ℕ, ◌+◌, ◌≤◌, refl, ◌≡◌, true, false, Bool, [], ◌∷◌, List, some, arith, ◌==◌,
}

-- No more is captured and given back than was authorized, and no more refunded than was captured.
abbrev pub IsWithin : Authorization → Type 0
IsWithin a = (a.settled + a.released ≤ a.amount) × (a.refunded ≤ a.settled)

abbrev pub has_id : ℕ → Authorization → Bool
has_id id a = a.id == id

-- Every authorization is within its limits, and their ids are different.
abbrev pub AreWithin : List Authorization → Type 0
AreWithin [] = Unit
AreWithin (a ∷ rows) = IsWithin a × (count_where (has_id a.id) rows ≡ 0) × AreWithin rows

unmatched-update :
    (id : ℕ) (f : Authorization → Authorization) (rows : List Authorization)
    → count_where (has_id id) rows ≡ 0
    → update_many (has_id id) f rows ≡ rows
unmatched-update id f [] h = refl
unmatched-update id f (a ∷ rows) h = ground (arith, unmatched-update id f rows)

module _ (f : Authorization → Authorization) (same : (a : Authorization) → (f a).id ≡ a.id) where
  count-update :
      (id other : ℕ) (rows : List Authorization)
      → count_where (has_id other) (update_many (has_id id) f rows)
        ≡ count_where (has_id other) rows
  count-update id other [] = refl
  count-update id other (a ∷ rows) = ground (arith, count-update id other rows, same a)

  -- An update of the row that is found.
  pub update-AreWithin :
      (id : ℕ) (rows : List Authorization) (found : Authorization)
      → find_first (has_id id) rows ≡ some found
      → IsWithin (f found)
      → AreWithin rows
      → AreWithin (update_many (has_id id) f rows)
  update-AreWithin id [] found h within all = tt
  update-AreWithin id (a ∷ rows) found h within (first, alone, rest) =
      go (λ h'. update-AreWithin id rows found h' within rest) (a.id == id) refl
    where
      counted :
          (b : Bool)
          → count_where (has_id (if b then f a else a).id) (update_many (has_id id) f rows) ≡ 0
      counted true = rw (same a) (count-update id a.id rows ∙ alone)
      counted false = count-update id a.id rows ∙ alone

      go :
          (find_first (has_id id) rows ≡ some found → AreWithin (update_many (has_id id) f rows))
          → (b : Bool) → (a.id == id) ≡ b
          → AreWithin (update_many (has_id id) f (a ∷ rows))
      go later true e =
          let here : found ≡ a = ground (arith, e, h) in
          let quiet : update_many (has_id id) f rows ≡ rows =
            unmatched-update id f rows (ground (arith, e, alone)) in
          rw e (rw here at within, counted true, rw quiet rest)
      go later false e = rw e (first, counted false, later (ground (arith, e, h)))

pub found-IsWithin :
    (id : ℕ) (rows : List Authorization) (found : Authorization)
    → find_first (has_id id) rows ≡ some found
    → AreWithin rows
    → IsWithin found × (found.id ≡ id)
found-IsWithin id [] found h all = cc
found-IsWithin id (a ∷ rows) found h (first, alone, rest) =
    go (λ h'. found-IsWithin id rows found h' rest) (a.id == id) refl
  where
    go :
        (find_first (has_id id) rows ≡ some found → IsWithin found × (found.id ≡ id))
        → (b : Bool) → (a.id == id) ≡ b
        → IsWithin found × (found.id ≡ id)
    go later true e =
        let here : a ≡ found = ground (arith, e, h) in
        let within : IsWithin a × (a.id ≡ id) = (first, ground (arith, e)) in rw here at within
    go later false e = later (ground (arith, e, h))
