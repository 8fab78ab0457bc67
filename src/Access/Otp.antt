-- ===== src/Access/Otp.antt =====
-- src/modules/otp/otp.service.ts: one-time codes of a user, one channel at a time.
pub mod SingleUse
pub mod Tests
use bonde_backend.Common.{
  ℕ, ◌+◌, Bool, true, false, not, ◌&&◌, Option, none, some, List, [], ◌∷◌, ltb, ◌==◌, if◌then◌else◌,
}
use bonde_backend.Common.Table.{find_first, update_many}
use bonde_backend.Common.Text.{Text, text_eq}
use bonde_backend.Common.Http.{Exception, bad_request, unavailable, Result, ok, err}

pub data Channel : Type 0 where
  email phone : Channel

-- A row of `otp_codes`, the newest first.
pub record OtpCode : Type 0 where
  pub id : ℕ
  pub user_id : ℕ
  pub code : Text
  pub channel : Channel
  pub expires_at : ℕ
  pub used : Bool

abbrev pub same_channel : Channel → Channel → Bool
same_channel email email = true
same_channel phone phone = true
same_channel _ _ = false

-- `where: { userId, channel, used: false }`
abbrev pub is_unused : ℕ → Channel → OtpCode → Bool
is_unused user channel row = row.user_id == user && same_channel row.channel channel && not row.used

abbrev pub is_usable : ℕ → Channel → ℕ → OtpCode → Bool
is_usable user channel now row = is_unused user channel row && ltb now row.expires_at

abbrev pub use_up : OtpCode → OtpCode
use_up row = record row { used = true }

unfoldable pub invalidate : ℕ → Channel → List OtpCode → List OtpCode
invalidate user channel rows = update_many (is_unused user channel) use_up rows

-- `hash` is the digest `hashCode`.
module _ (hash : Text → Text) where
  -- `code` and `fresh` are what `randomCode` and `randomUUID` give.
  unfoldable pub generate_code : ℕ → Channel → Text → ℕ → ℕ → List OtpCode → List OtpCode
  generate_code user channel code fresh now rows =
      record {
        id = fresh;
        user_id = user;
        code = hash code;
        channel = channel;
        expires_at = now + 300000;
        used = false;
      }
      ∷ update_many (is_unused user channel) use_up rows

  unfoldable pub consume_code : ℕ → Channel → Text → ℕ → List OtpCode → Bool × List OtpCode
  consume_code user channel code now rows = elim (find_first (is_usable user channel now) rows) [
    | none ↦ (false, rows)
    | some candidate ↦
        if text_eq (hash code) candidate.code
        then (true, update_many (λ (row : OtpCode). row.id == candidate.id) use_up rows)
        else (false, rows)
  ]

  -- `send`, for a target that is the user's; `delivered` is false where the sender threw an
  -- `OtpSendError`.
  unfoldable pub send :
      ℕ → Channel → Text → ℕ → Bool → ℕ → List OtpCode → Result (Unit {0}) × List OtpCode
  send user channel code fresh delivered now rows =
      let issued = generate_code user channel code fresh now rows in
      if delivered
      then (ok tt, issued)
      else (err (unavailable "Unable to send verification code"), invalidate user channel issued)
