-- ===== src/Access/Otp/SingleUse.antt =====
-- A code opens once, and only the newest does.
use bonde_backend.Common.{
  ℕ, ◌+◌, ◌≤◌, ◌<◌, ◌≡◌, refl, arith, Bool, true, false, none, some, List, [], ◌∷◌, ◌==◌,
  Option-cases, inl, inr,
}
use bonde_backend.Common.Table.{find_first, update_many, count_where}
use bonde_backend.Common.Text.{text_eq, Text}
use bonde_backend.Access.Otp.{
  OtpCode, Channel, is_unused, is_usable, use_up, generate_code, consume_code, invalidate, send,
}

-- No two unused codes of one user and channel.
abbrev pub IsSingle : ℕ → Channel → List OtpCode → Type 0
IsSingle user channel rows = count_where (is_unused user channel) rows ≤ 1

used_up :
    (user : ℕ) (channel : Channel) (rows : List OtpCode)
    → count_where (is_unused user channel) (update_many (is_unused user channel) use_up rows) ≡ 0
used_up user channel [] = refl
used_up user channel (row ∷ rows) = ground (arith, used_up user channel rows)

none_usable :
    (user : ℕ) (channel : Channel) (now : ℕ) (rows : List OtpCode)
    → count_where (is_unused user channel) rows ≡ 0
    → find_first (is_usable user channel now) rows ≡ none
none_usable user channel now [] h = refl
none_usable user channel now (row ∷ rows) h = ground (arith, none_usable user channel now rows)

-- Using up rows leaves no more unused ones.
fewer_unused :
    (user : ℕ) (channel : Channel) (p : OtpCode → Bool) (rows : List OtpCode)
    → count_where (is_unused user channel) (update_many p use_up rows)
      ≤ count_where (is_unused user channel) rows
fewer_unused user channel p [] = omega arith
fewer_unused user channel p (row ∷ rows) = ground (arith, fewer_unused user channel p rows)

abbrev has_id : ℕ → OtpCode → Bool
has_id id row = row.id == id

-- Using up the one unused row leaves none.
spent :
    (user : ℕ) (channel : Channel) (now : ℕ) (rows : List OtpCode) {row : OtpCode}
    → IsSingle user channel rows
    → find_first (is_usable user channel now) rows ≡ some row
    → count_where (is_unused user channel) (update_many (has_id row.id) use_up rows) ≡ 0
spent user channel now [] single found = cc
spent user channel now (r ∷ rows) {row = row} single found = ground (
  arith,
  single,
  found,
  none_usable user channel now rows,
  spent user channel now rows {row = row},
  fewer_unused user channel (has_id row.id) rows,
)

module _ (hash : Text → Text) (user : ℕ) (channel : Channel) where
  -- Issuing, using and voiding codes keep at most one unused code of a user and channel.
  pub codes-IsSingle :
      (code : Text) (fresh now : ℕ) (rows : List OtpCode)
      → IsSingle user channel rows
      → IsSingle user channel (generate_code hash user channel code fresh now rows)
        × IsSingle user channel (consume_code hash user channel code now rows).1
        × IsSingle user channel (invalidate user channel rows)
  unfolding generate_code consume_code invalidate
  codes-IsSingle code fresh now rows single = (
    ground (arith, used_up user channel rows),
    elim (Option-cases (find_first (is_usable user channel now) rows)) [
      | inl missing ↦ ground (arith, missing, single)
      | inr (row, found) ↦
          ground (arith, found, single, fewer_unused user channel (has_id row.id) rows)
    ],
    ground (arith, used_up user channel rows),
  )

  -- For five minutes after a code has been issued, it opens, and any attempt opens exactly if it has
  -- the digest of that code.
  pub generate_consumes :
      (code attempt : Text) (fresh now later : ℕ) (rows : List OtpCode)
      → later < now + 300000
      → let issued = generate_code hash user channel code fresh now rows in
        ((consume_code hash user channel code later issued).0 ≡ true)
        × ((consume_code hash user channel attempt later issued).0
            ≡ text_eq (hash attempt) (hash code))
  unfolding generate_code consume_code
  generate_consumes code attempt fresh now later rows soon =
      (ground (arith, soon), ground (arith, soon))

  -- Where at most one code of the user and channel is unused: after a code has opened, no code of
  -- the user and channel opens in the rows that are left.
  pub consume_once :
      (code again : Text) (now later : ℕ) (rows : List OtpCode)
      → IsSingle user channel rows
      → (consume_code hash user channel code now rows).0 ≡ true
      → (consume_code hash user channel again later
          (consume_code hash user channel code now rows).1).0
        ≡ false
  unfolding consume_code
  consume_once code again now later rows single opened =
      elim (Option-cases (find_first (is_usable user channel now) rows)) [
        | inl missing ↦ ground (arith, missing, opened)
        | inr (row, found) ↦
            let gone =
              none_usable user channel later (update_many (has_id row.id) use_up rows)
                (spent user channel now rows single found) in
            ground (arith, found, opened, gone)
      ]

  -- A code that could not be delivered does not open, nor does any earlier one.
  pub send_undelivered :
      (code attempt : Text) (fresh now later : ℕ) (rows : List OtpCode)
      → (consume_code hash user channel attempt later
          (send hash user channel code fresh false now rows).1).0
        ≡ false
  unfolding send consume_code invalidate
  send_undelivered code attempt fresh now later rows =
      let issued = generate_code hash user channel code fresh now rows in
      let gone =
        none_usable user channel later (update_many (is_unused user channel) use_up issued)
          (used_up user channel issued) in
      ground (arith, gone)
