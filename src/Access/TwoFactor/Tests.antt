-- ===== src/Access/TwoFactor/Tests.antt =====
-- One user with an authenticator whose code is the secret, at any time, and one recovery code.
use bonde_backend.Access.TwoFactor.Once.{recovery_consumed, totp_once}
use bonde_backend.Common.{length}
use bonde_backend.Common.Http.{ok}
use bonde_backend.Common.Table.{count_where, find_first}
use bonde_backend.Common.{ℕ, ◌≡◌, ◌≢◌, refl, arith, some, List, [], ◌∷◌, suc, Bool}
use bonde_backend.Common.Text.{Text-discrete, Text, text_eq}
use bonde_backend.Access.TwoFactor.{
  normalize, remove_hash, verify_recovery, check_code, owned_by, verify_enabled, verify_factor,
  TwoFactorRow, Authenticator, totp, recovery,
}

abbrev opens : Text → Text → ℕ → Bool
opens token secret now = text_eq token secret

abbrev plain : Authenticator
plain = record { decrypt = λ t. some t; digest = λ t. t; upper = λ t. t; check = opens }

abbrev token : Text
token = b'1' ∷ b'2' ∷ b'3' ∷ b'4' ∷ b'5' ∷ b'6' ∷ []

abbrev enrolled : TwoFactorRow
enrolled = record {
  user_id = 7;
  secret_enc = token;
  recovery_hashes = (b'R' ∷ []) ∷ [];
  enabled_at = some 5;
  last_used_step = 0;
}

abbrev after_token : List TwoFactorRow
after_token = record enrolled { last_used_step = 2 } ∷ []

abbrev after_recovery : List TwoFactorRow
after_recovery = record enrolled { recovery_hashes = [] } ∷ []

token_passes : verify_factor plain 7 token 60000 (enrolled ∷ []) ≡ ok (totp, after_token)
unfolding verify_factor verify_enabled check_code Text-discrete
token_passes = refl

-- The same code passes again in the next time step, where the authenticator still accepts it.
token_passes_again :
    verify_factor plain 7 token 90000 after_token
    ≡ ok (totp, record enrolled { last_used_step = 3 } ∷ [])
unfolding verify_factor verify_enabled check_code Text-discrete
token_passes_again = refl

recovery_passes :
    verify_factor plain 7 (b'R' ∷ []) 60000 (enrolled ∷ []) ≡ ok (recovery, after_recovery)
unfolding verify_factor verify_enabled verify_recovery check_code Text-discrete remove_hash
recovery_passes = refl

totp_once_example : verify_factor plain 7 token 70000 after_token ≢ ok (totp, after_token)
totp_once_example =
    totp_once plain 7 token token 60000 70000 (enrolled ∷ []) after_token after_token token_passes
      (omega arith)

recovery_consumed_example :
    (left : List Text) × (find_first (owned_by 7) after_recovery
      ≡ some (record enrolled { recovery_hashes = left }))
    × (suc (length left) ≡ 1)
    × (suc (count_where (λ x. text_eq x (plain.digest (normalize plain (b'R' ∷ [])))) left)
        ≡ count_where
            (λ x. text_eq x (plain.digest (normalize plain (b'R' ∷ []))))
            enrolled.recovery_hashes)
recovery_consumed_example =
    recovery_consumed plain 7 (b'R' ∷ []) 60000 (enrolled ∷ []) after_recovery enrolled refl
      recovery_passes
