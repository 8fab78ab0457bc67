-- ===== src/Access/TwoFactor/Once.antt =====
-- What a second factor that passed no longer opens.
use bonde_backend.Common.{
  ℕ, ◌≤◌, ◌≡◌, ◌≢◌, suc, refl, arith, false, some, List, [], ◌∷◌, length, Option-cases, inl, inr,
}
use bonde_backend.Common.Table.{find_first, update_many, count_where}
use bonde_backend.Common.Text.{Text, text_eq}
use bonde_backend.Common.Http.{ok, err, unauthorized}
use bonde_backend.Access.TwoFactor.{
  restart, normalize, TwoFactorRow, totp, recovery, Authenticator, owned_by, step_at, use_step,
  with_hashes, remove_hash, start_setup, is_enabled, verify_factor, verify_enabled, verify_recovery,
}

owned_row :
    (user : ℕ) (f : TwoFactorRow → TwoFactorRow) (rows : List TwoFactorRow) {row : TwoFactorRow}
    → ((r : TwoFactorRow) → (f r).user_id ≡ r.user_id)
    → find_first (owned_by user) rows ≡ some row
    → find_first (owned_by user) (update_many (owned_by user) f rows) ≡ some (f row)
owned_row user f [] keeps found = cc
owned_row user f (r ∷ rows) {row = row} keeps found =
    ground (arith, keeps r, keeps row, found, owned_row user f rows {row = row} keeps)

removed_counts :
    (h : Text) (hashes left : List Text)
    → remove_hash h hashes ≡ some left
    → (suc (length left) ≡ length hashes)
      × (suc (count_where (λ x. text_eq x h) left) ≡ count_where (λ x. text_eq x h) hashes)
unfolding remove_hash
removed_counts h [] left removed = cc
removed_counts h (x ∷ xs) left removed = elim (Option-cases (remove_hash h xs)) [
  | inl missing ↦ ground (arith, removed, missing)
  | inr (ys, found) ↦ ground (arith, removed, found, removed_counts h xs ys)
]

module _ (a : Authenticator) (user : ℕ) where
  -- After a code of the authenticator has passed, no further code passes as one until the next time
  -- step.
  pub totp_once :
      (code again : Text) (now later : ℕ) (rows rows' rows'' : List TwoFactorRow)
      → verify_factor a user code now rows ≡ ok (totp, rows')
      → step_at later ≤ step_at now
      → verify_factor a user again later rows' ≢ ok (totp, rows'')
  unfolding verify_factor verify_enabled verify_recovery
  totp_once code again now later rows rows' rows'' passed soon second =
      elim (Option-cases (find_first (owned_by user) rows)) [
        | inl missing ↦ ground (arith, missing, passed)
        | inr (row, found) ↦ ground (
          arith,
          found,
          passed,
          soon,
          second,
          owned_row user (use_step a (step_at now)) rows (λ r. refl) found,
        )
      ]

  -- A recovery code that passed is taken off the user's list: there is one code less, and one less
  -- with its digest.
  pub recovery_consumed :
      (code : Text) (now : ℕ) (rows rows' : List TwoFactorRow) (row : TwoFactorRow)
      → find_first (owned_by user) rows ≡ some row
      → verify_factor a user code now rows ≡ ok (recovery, rows')
      → (left : List Text) × (find_first (owned_by user) rows'
          ≡ some (record row { recovery_hashes = left }))
        × (suc (length left) ≡ length row.recovery_hashes)
        × (suc (count_where (λ x. text_eq x (a.digest (normalize a code))) left)
            ≡ count_where (λ x. text_eq x (a.digest (normalize a code))) row.recovery_hashes)
  unfolding verify_factor verify_enabled verify_recovery
  recovery_consumed code now rows rows' row found passed =
      elim (Option-cases (remove_hash (a.digest (normalize a code)) row.recovery_hashes)) [
        | inl missing ↦ ground (arith, found, passed, missing)
        | inr (left, removed) ↦
            let counts =
              removed_counts (a.digest (normalize a code)) row.recovery_hashes left removed in
            (
              left,
              ground (
                arith,
                found,
                passed,
                removed,
                owned_row user (with_hashes a left) rows (λ r. refl) found,
              ),
              counts.0,
              counts.1,
            )
      ]

  -- The second factor is on only after a code has been confirmed: neither without a set-up nor between
  -- set-up and confirmation does any code pass.
  pub setup_inactive :
      (secret code : Text) (now : ℕ) (rows : List TwoFactorRow)
      → (is_enabled a user (start_setup a user secret rows) ≡ false)
        × (verify_factor a user code now (start_setup a user secret rows)
            ≡ err (unauthorized "Two-factor authentication is not on"))
  unfolding is_enabled start_setup verify_factor
  setup_inactive secret code now rows = elim (Option-cases (find_first (owned_by user) rows)) [
    | inl missing ↦ (ground (arith, missing), ground (arith, missing))
    | inr (row, found) ↦
        let again = owned_row user (restart a secret) rows (λ r. refl) found in
        (ground (arith, found, again), ground (arith, found, again))
  ]
