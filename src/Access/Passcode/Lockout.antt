-- ===== src/Access/Passcode/Lockout.antt =====
-- A passcode is guessed at most as often as its limit allows.
use bonde_backend.Common.{◌↔◌, ap, ◌∙◌, length}
use bonde_backend.Common.{
  ℕ, ◌+◌, ◌*◌, ◌<◌, ◌≡◌, suc, refl, arith, false, none, some, List, [], ◌∷◌, All,
}
use bonde_backend.Common.Table.{find_first, update_many}
use bonde_backend.Common.Text.{Text}
use bonde_backend.Common.Http.{conflict, ok, err, unauthorized}
use bonde_backend.Access.Passcode.{
  fail_with, Credentials, Limits, owned_by, has_id, is_locked, fail, verify, verify_or_throw,
  validate, create,
}

-- The user's row after an update by the row's id that leaves users alone.
updated_row :
    (user : ℕ) (f : Credentials → Credentials) (rows : List Credentials) {row : Credentials}
    → ((r : Credentials) → (f r).user_id ≡ r.user_id)
    → find_first (owned_by user) rows ≡ some row
    → find_first (owned_by user) (update_many (has_id row.id) f rows) ≡ some (f row)
updated_row user f [] keeps found = cc
updated_row user f (r ∷ rows) {row = row} keeps found =
    ground (arith, keeps r, keeps row, found, updated_row user f rows {row = row} keeps)

module _ (scrypt : Text → Text → Text) (limits : Limits) where
  -- A wrong passcode on an unlocked row counts.
  validate-fail :
      (user : ℕ) (passcode : Text) (now : ℕ) (rows : List Credentials) (row : Credentials)
      → find_first (owned_by user) rows ≡ some row
      → is_locked now row ≡ false
      → verify scrypt limits passcode row.salt row.hash ≡ false
      → find_first (owned_by user) (validate scrypt limits user passcode now rows).1
        ≡ some (fail limits now row)
  unfolding validate verify_or_throw fail
  validate-fail user passcode now rows row found free wrong = ground (
    arith,
    found,
    free,
    wrong,
    updated_row user (fail_with limits now row) rows (λ r. refl) found,
  )

  -- The attempts of a list of guesses, each with its time, first to last.
  abbrev pub guess_all : ℕ → List (ℕ × Text) → List Credentials → List Credentials
  guess_all user [] rows = rows
  guess_all user ((now, guess) ∷ guesses) rows =
      guess_all user guesses (validate scrypt limits user guess now rows).1

  abbrev pub IsWrong : Credentials → ℕ × Text → Type 0
  IsWrong row (now, guess) = verify scrypt limits guess row.salt row.hash ≡ false

  -- The row after some wrong guesses that do not reach the limit.
  counted :
      (user : ℕ) (guesses : List (ℕ × Text)) (rows : List Credentials) (row : Credentials)
      → find_first (owned_by user) rows ≡ some row
      → row.locked_until ≡ none
      → All (IsWrong row) guesses
      → row.failed_attempts + length guesses < limits.max_attempts
      → find_first (owned_by user) (guess_all user guesses rows)
        ≡ some (record row { failed_attempts = row.failed_attempts + length guesses })
  unfolding fail
  counted user [] rows row found free wrong few = ground (arith, found)
  counted user ((now, guess) ∷ guesses) rows row found free wrong few =
      let after = (validate scrypt limits user guess now rows).1 in
      let once = validate-fail user guess now rows row found (ground (arith, free)) wrong.0 in
      let next : Credentials = record row { failed_attempts = suc row.failed_attempts } in
      let same : fail limits now row ≡ next = ground (arith, few, free) in
      ground (
        arith,
        counted user guesses after next (once ∙ ap some same) free wrong.1 (omega (arith, few)),
      )

  -- On a row that is not locked, once wrong passcodes in a row have brought the failed attempts to
  -- the limit, every passcode is refused for the lockout time, the right one too, and no attempt of
  -- that time changes what is stored.
  pub lockout :
      (user : ℕ) (guesses : List (ℕ × Text)) (last : Text) (now later : ℕ) (passcode : Text)
      (rows : List Credentials) (row : Credentials)
      → find_first (owned_by user) rows ≡ some row
      → row.locked_until ≡ none
      → All (IsWrong row) guesses
      → IsWrong row (now, last)
      → row.failed_attempts + suc (length guesses) ≡ limits.max_attempts
      → later < now + limits.lock_minutes * 60000
      → let after = (validate scrypt limits user last now (guess_all user guesses rows)).1 in
        validate scrypt limits user passcode later after
        ≡ (err (unauthorized "Too many failed attempts"), after)
  unfolding validate verify_or_throw fail
  lockout user guesses last now later passcode rows row found free wrong wrong_last full soon =
      let before = counted user guesses rows row found free wrong (omega (arith, full)) in
      let next : Credentials = record row {
        failed_attempts = row.failed_attempts + length guesses;
      } in
      let locked =
        validate-fail user last now (guess_all user guesses rows) next before (ground (arith, free))
          wrong_last in
      ground (arith, locked, full, soon)

  -- A passcode that a user without one sets passes at once and at any time after, and nothing passes that
  -- has not its key under the stored salt; a second `create` is refused and stores nothing.
  pub create_validates :
      (user : ℕ) (passcode attempt salt again : Text) (fresh other now : ℕ)
      (rows : List Credentials)
      → find_first (owned_by user) rows ≡ none
      → let after = (create scrypt limits user passcode salt fresh rows).1 in
        ((validate scrypt limits user passcode now after).0 ≡ ok tt)
        × ((validate scrypt limits user attempt now after).0 ≡ ok tt
            ↔ (scrypt attempt salt ≡ scrypt passcode salt))
        × (create scrypt limits user attempt again other after
            ≡ (err (conflict "Passcode already set"), after))
  unfolding create validate verify_or_throw verify
  create_validates user passcode attempt salt again fresh other now rows absent = (
    ground (arith, absent),
    (λ passes. ground (arith, absent, passes), λ same. ground (arith, absent, same)),
    ground (arith, absent),
  )
