-- ===== src/Access/Passcode.antt =====
-- src/modules/passcode/passcode.service.ts: the passcode of a user, with its counter of failed attempts
-- and its lockout window.
pub mod Lockout
pub mod Tests
use bonde_backend.Common.{
  ℕ, ◌+◌, ◌*◌, suc, Bool, true, false, not, ◌&&◌, ◌||◌, Option, none, some, List, [], ◌∷◌, leb, ltb,
  ◌==◌, is_some, if◌then◌else◌,
}
use Prim.Native.String.{String}
use bonde_backend.Common.Table.{find_first, update_many}
use bonde_backend.Common.Text.{Text, text_eq}
use bonde_backend.Common.Http.{Exception, unauthorized, not_found, conflict, Result, ok, err}

-- A row of `passcodes`; `hash` is the derived key that its hexadecimal text stands for.
pub record Credentials : Type 0 where
  pub id : ℕ
  pub user_id : ℕ
  pub salt : Text
  pub hash : Text
  pub failed_attempts : ℕ
  pub locked_until : Option ℕ

-- `config.get('passcode')`
pub record Limits : Type 0 where
  pub max_attempts : ℕ
  pub lock_minutes : ℕ

abbrev pub owned_by : ℕ → Credentials → Bool
owned_by user row = row.user_id == user

abbrev pub has_id : ℕ → Credentials → Bool
has_id id row = row.id == id

-- `existing.lockedUntil && existing.lockedUntil.getTime() > Date.now()`
abbrev pub is_locked : ℕ → Credentials → Bool
is_locked now row = elim row.locked_until [ none ↦ false | some until ↦ ltb now until ]

-- What a failed attempt writes.
unfoldable pub fail : Limits → ℕ → Credentials → Credentials
fail limits now row =
    if leb limits.max_attempts (suc row.failed_attempts)
    then record row { failed_attempts = 0; locked_until = some (now + limits.lock_minutes * 60000) }
    else record row { failed_attempts = suc row.failed_attempts; locked_until = none }

-- The two columns that the update sets, on a row with the id.
abbrev pub fail_with : Limits → ℕ → Credentials → Credentials → Credentials
fail_with limits now existing row = record row {
  failed_attempts = (fail limits now existing).failed_attempts;
  locked_until = (fail limits now existing).locked_until;
}

-- What an attempt that succeeds writes.
abbrev pub reset : Credentials → Credentials
reset row = record row { failed_attempts = 0; locked_until = none }

-- `scrypt` derives the key of a passcode under a salt. A handler gives what it returns or throws, and
-- the rows it leaves: its writes stay when it throws. The messages are given
-- without the minutes that they end with.
module _ (scrypt : Text → Text → Text) (limits : Limits) where
  unfoldable pub verify : Text → Text → Text → Bool
  verify passcode salt hash = text_eq (scrypt passcode salt) hash

  unfoldable pub verify_or_throw :
      Credentials → Text → String → ℕ → List Credentials → Result (Unit {0}) × List Credentials
  verify_or_throw existing passcode message now rows =
      if is_locked now existing
      then (err (unauthorized "Too many failed attempts"), rows)
      else if verify passcode existing.salt existing.hash
      then (
        ok tt,
        if ltb 0 existing.failed_attempts || is_some existing.locked_until
            then update_many (has_id existing.id) reset rows
            else rows,
      )
      else (
        err (
            unauthorized (
              if is_some (fail limits now existing).locked_until
              then "Too many failed attempts"
              else message)),
        update_many (has_id existing.id) (fail_with limits now existing) rows,
      )

  unfoldable pub get_status : ℕ → List Credentials → Bool
  get_status user rows = is_some (find_first (owned_by user) rows)

  -- `salt` and `fresh` are what `randomBytes` and `randomUUID` give; `userId` is unique.
  unfoldable pub create :
      ℕ → Text → Text → ℕ → List Credentials → Result (Unit {0}) × List Credentials
  create user passcode salt fresh rows =
      if is_some (find_first (owned_by user) rows)
      then (err (conflict "Passcode already set"), rows)
      else (
        ok tt,
        record {
          id = fresh;
          user_id = user;
          salt = salt;
          hash = scrypt passcode salt;
          failed_attempts = 0;
          locked_until = none;
        }
            ∷ rows,
      )

  unfoldable pub validate : ℕ → Text → ℕ → List Credentials → Result (Unit {0}) × List Credentials
  validate user passcode now rows = elim (find_first (owned_by user) rows) [
    | none ↦ (err (not_found "Passcode not set"), rows)
    | some existing ↦ verify_or_throw existing passcode "Invalid passcode" now rows
  ]

  abbrev pub renew : Text → Text → Credentials → Credentials
  renew next salt row = record (reset row) { salt = salt; hash = scrypt next salt }

  -- The second half of `update`, after the current passcode has been verified.
  abbrev pub replace :
      Credentials
      → Text
      → Text
      → Result (Unit {0}) × List Credentials
      → Result (Unit {0}) × List Credentials
  replace existing next salt (err thrown, rows) = (err thrown, rows)
  replace existing next salt (ok done, rows) =
      (ok tt, update_many (has_id existing.id) (renew next salt) rows)

  unfoldable pub update :
      ℕ → Text → Text → Text → ℕ → List Credentials → Result (Unit {0}) × List Credentials
  update user current next salt now rows = elim (find_first (owned_by user) rows) [
    | none ↦ (err (not_found "Passcode not set"), rows)
    | some existing ↦
        replace existing next salt
          (verify_or_throw existing current "Current passcode is incorrect" now rows)
  ]
