-- ===== src/Access/TwoFactor.antt =====
-- src/modules/auth/services/two-factor.service.ts: the second factor of a user.
pub mod Once
pub mod Tests
use bonde_backend.Common.{
  ℕ, ◌+◌, ◌/◌, suc, Bool, true, false, not, ◌&&◌, ◌||◌, Option, none, some, List, [], ◌∷◌, leb, ltb,
  ◌==◌, is_some, length, if◌then◌else◌,
}
use bonde_backend.Common.Table.{find_first, update_many, delete_many}
use bonde_backend.Common.Text.{Text, text_eq, is_space, is_digit}
use bonde_backend.Common.Http.{Exception, unauthorized, bad_request, Result, ok, err}

-- A row of the second factors; `userId` is unique.
pub record TwoFactorRow : Type 0 where
  pub user_id : ℕ
  pub secret_enc : Text
  pub recovery_hashes : List Text
  pub enabled_at : Option ℕ
  pub last_used_step : ℕ

pub data Factor : Type 0 where
  totp recovery : Factor

abbrev pub owned_by : ℕ → TwoFactorRow → Bool
owned_by user row = row.user_id == user

abbrev pub step_at : ℕ → ℕ
step_at at = at / 1000 / 30

abbrev pub keep : (ℕ → Bool) → Text → Text
keep p [] = []
keep p (c ∷ t) = if p c then c ∷ keep p t else keep p t

-- `trim().replace(/\s+/g, '')`
abbrev pub strip : Text → Text
strip t = keep (λ c. not (is_space c)) t

abbrev pub is_alphanumeric : ℕ → Bool
is_alphanumeric c = leb b'A' c && leb c b'Z' || is_digit c

-- `/^\d{6}$/`
abbrev pub all_digits : Text → Bool
all_digits [] = true
all_digits (c ∷ t) = is_digit c && all_digits t

abbrev pub is_token : Text → Bool
is_token t = all_digits t && length t == 6

-- `indexOf` and the `filter` by index: the list without the first occurrence.
unfoldable pub remove_hash : Text → List Text → Option (List Text)
remove_hash h [] = none
remove_hash h (x ∷ xs) =
    let rest = remove_hash h xs in
    if text_eq x h then some xs else elim rest [ none ↦ none | some ys ↦ some (x ∷ ys) ]

-- What the runtime supplies: the decryption under the configured key (`none` where it throws), the
-- digest, upper-casing of a trimmed text, and `otplib.authenticator.check` on a token and a secret at an
-- instant (false where it throws).
pub record Authenticator : Type 0 where
  pub decrypt : Text → Option Text
  pub digest : Text → Text
  pub upper : Text → Text
  pub check : Text → Text → ℕ → Bool

module _ (a : Authenticator) where
  abbrev pub normalize : Text → Text
  normalize code = keep is_alphanumeric (a.upper code)

  unfoldable pub check_code : Text → Text → ℕ → Bool
  check_code secret code now = is_token (strip code) && a.check (strip code) secret now

  unfoldable pub is_enabled : ℕ → List TwoFactorRow → Bool
  is_enabled user rows = elim (find_first (owned_by user) rows) [
    | none ↦ false
    | some row ↦ is_some row.enabled_at
  ]

  abbrev pub restart : Text → TwoFactorRow → TwoFactorRow
  restart secret row = record row {
    secret_enc = secret;
    recovery_hashes = [];
    enabled_at = none;
    last_used_step = 0;
  }

  -- `secret` is the encrypted fresh secret.
  unfoldable pub start_setup : ℕ → Text → List TwoFactorRow → List TwoFactorRow
  start_setup user secret rows =
      if is_some (find_first (owned_by user) rows)
      then update_many (owned_by user) (restart secret) rows
      else record {
        user_id = user;
        secret_enc = secret;
        recovery_hashes = [];
        enabled_at = none;
        last_used_step = 0;
      }
        ∷ rows

  abbrev pub turn_on : List Text → ℕ → TwoFactorRow → TwoFactorRow
  turn_on hashes now row = record row {
    enabled_at = some now;
    recovery_hashes = hashes;
    last_used_step = step_at now;
  }

  -- `hashes` are the digests of the fresh recovery codes.
  unfoldable pub enable : ℕ → Text → List Text → ℕ → List TwoFactorRow → Result (List TwoFactorRow)
  enable user code hashes now rows = elim (find_first (owned_by user) rows) [
    | none ↦ err (bad_request "Start two-factor setup first")
    | some row ↦
        if is_some row.enabled_at
        then err (bad_request "Two-factor authentication is already on")
        else elim (a.decrypt row.secret_enc) [
          | none ↦ err (bad_request "Stored authenticator secret cannot be read")
          | some secret ↦
              if check_code secret code now
              then ok (update_many (owned_by user) (turn_on hashes now) rows)
              else err (unauthorized "Invalid authenticator code")
        ]
  ]

  unfoldable pub disable : ℕ → List TwoFactorRow → List TwoFactorRow
  disable user rows = delete_many (owned_by user) rows

  abbrev pub use_step : ℕ → TwoFactorRow → TwoFactorRow
  use_step step row = record row { last_used_step = step }

  abbrev pub with_hashes : List Text → TwoFactorRow → TwoFactorRow
  with_hashes hashes row = record row { recovery_hashes = hashes }

  -- The half of `verify` for a recovery code.
  unfoldable pub verify_recovery :
      ℕ → Text → TwoFactorRow → List TwoFactorRow → Result (Factor × List TwoFactorRow)
  verify_recovery user code row rows =
      elim (remove_hash (a.digest (normalize code)) row.recovery_hashes) [
        | none ↦ err (unauthorized "Invalid authenticator code")
        | some left ↦ ok (recovery, update_many (owned_by user) (with_hashes left) rows)
      ]

  -- `verify`, once the row has been found and is on.
  unfoldable pub verify_enabled :
      ℕ → Text → ℕ → TwoFactorRow → List TwoFactorRow → Result (Factor × List TwoFactorRow)
  verify_enabled user code now row rows = elim (a.decrypt row.secret_enc) [
    | none ↦ err (bad_request "Stored authenticator secret cannot be read")
    | some secret ↦
        if check_code secret code now
        then if leb (step_at now) row.last_used_step
          then err (unauthorized "That code has already been used")
          else ok (totp, update_many (owned_by user) (use_step (step_at now)) rows)
        else verify_recovery user code row rows
  ]

  unfoldable pub verify_factor :
      ℕ → Text → ℕ → List TwoFactorRow → Result (Factor × List TwoFactorRow)
  verify_factor user code now rows = elim (find_first (owned_by user) rows) [
    | none ↦ err (unauthorized "Two-factor authentication is not on")
    | some row ↦
        if is_some row.enabled_at
        then verify_enabled user code now row rows
        else err (unauthorized "Two-factor authentication is not on")
  ]
