-- ===== src/Access/Sessions/Revocation.antt =====
-- What has been revoked stays revoked.
use bonde_backend.Common.{◌⊎◌, Bool-cases}
use bonde_backend.Common.{
  ◌≢◌, ℕ, ◌+◌, ◌*◌, ◌≡◌, refl, arith, Bool, true, false, Option, none, some, List, [], ◌∷◌,
  Option-cases, inl, inr, is_some, ◌==◌,
}
use bonde_backend.Common.Table.{find_first, update_many, count_where}
use bonde_backend.Common.Text.{Text}
use bonde_backend.Common.Http.{ok, err, not_found}
use bonde_backend.Access.Sessions.{
  suc, by_user, AuthSession, Sessions, has_session, touch, end_session, record_session, is_revoked,
  revoke, revoke_all, owned, is_ended,
}

-- An update that leaves the session and a revocation in place.
abbrev pub Keeps : (AuthSession → AuthSession) → Type 0
Keeps f =
    (row : AuthSession)
    → ((f row).session_id ≡ row.session_id)
      × (is_some row.revoked_at ≡ true → is_some (f row).revoked_at ≡ true)

abbrev revoked_in : ℕ → List AuthSession → Bool
revoked_in session_id rows = elim (find_first (has_session session_id) rows) [
  | none ↦ false
  | some row ↦ is_some row.revoked_at
]

still_revoked :
    (session_id : ℕ) (p : AuthSession → Bool) (f : AuthSession → AuthSession)
    (rows : List AuthSession)
    → Keeps f
    → revoked_in session_id rows ≡ true
    → revoked_in session_id (update_many p f rows) ≡ true
still_revoked session_id p f [] keeps revoked = cc
still_revoked session_id p f (row ∷ rows) keeps revoked =
    ground (arith, (keeps row).0, (keeps row).1, revoked, still_revoked session_id p f rows keeps)

record-revoked :
    (session_id other user expires_in fresh now : ℕ) (agent address : Option Text) (s : Sessions)
    → is_revoked (some session_id) s ≡ true
    → is_revoked (some session_id) (record_session other user expires_in agent address fresh now s)
      ≡ true
unfolding is_revoked record_session
record-revoked session_id other user expires_in fresh now agent address s revoked =
    elim (Option-cases (find_first (has_session other) s.rows)) [
      | inl missing ↦ ground (arith, missing, revoked)
      | inr (row, found) ↦ ground (
        arith,
        found,
        revoked,
        still_revoked session_id (λ (r : AuthSession). r.id == row.id)
            (touch now (now + expires_in * 1000)) s.rows (λ r. (refl, λ e. e)) revoked,
      )
    ]

revoke-revoked :
    (session_id user id now : ℕ) (s s' : Sessions)
    → is_revoked (some session_id) s ≡ true
    → revoke user id now s ≡ ok s'
    → is_revoked (some session_id) s' ≡ true
unfolding is_revoked revoke
revoke-revoked session_id user id now s s' revoked done =
    elim (Option-cases (find_first (owned user id) s.rows)) [
      | inl missing ↦ ground (arith, missing, done)
      | inr (row, found) ↦ ground (
        arith,
        found,
        revoked,
        done,
        still_revoked session_id (λ (r : AuthSession). r.id == row.id) (end_session by_user now)
            s.rows (λ r. (refl, λ e. refl)) revoked,
      )
    ]

-- One operation on the table.
pub data Step (s : Sessions) : Sessions → Type 0 where
  signed_in :
      (other user expires_in fresh now : ℕ) (agent address : Option Text)
      → Step s (record_session other user expires_in agent address fresh now s)
  ended : (user id now : ℕ) {t : Sessions} → revoke user id now s ≡ ok t → Step s t
  all_ended :
      (user reason now : ℕ) (spared : Option ℕ) → Step s (revoke_all user reason spared now s).1

-- Any number of operations.
pub data Steps (s : Sessions) : Sessions → Type 0 where
  start : Steps s s
  and_then : {t u : Sessions} → Steps s t → Step t u → Steps s u

Step-revoked :
    (session_id : ℕ) (s t : Sessions)
    → Step s t
    → is_revoked (some session_id) s ≡ true
    → is_revoked (some session_id) t ≡ true
unfolding is_revoked revoke_all
Step-revoked session_id s t (signed_in other user expires_in fresh now agent address) revoked =
    record-revoked session_id other user expires_in fresh now agent address s revoked
Step-revoked session_id s t (ended user id now done) revoked =
    revoke-revoked session_id user id now s t revoked done
Step-revoked session_id s t (all_ended user reason now spared) revoked =
    still_revoked session_id (is_ended user spared) (end_session reason now) s.rows
      (λ r. (refl, λ e. refl)) revoked

-- A session that is revoked stays so through any number of sign-ins, refreshes and revocations, of
-- this session and of others.
pub revoked_forever :
    (session_id : ℕ) (s t : Sessions)
    → Steps s t
    → is_revoked (some session_id) s ≡ true
    → is_revoked (some session_id) t ≡ true
revoked_forever session_id s t start revoked = revoked
revoked_forever session_id s u (and_then {t = t} before step) revoked =
    Step-revoked session_id t u step (revoked_forever session_id s t before revoked)

not_owned :
    (user id : ℕ) (rows : List AuthSession)
    → count_where (owned user id) rows ≡ 0
    → find_first (owned user id) rows ≡ none
not_owned user id [] h = refl
not_owned user id (row ∷ rows) h = ground (arith, not_owned user id rows)

-- A user revokes none but his own sessions: an id that is none of his is answered as one that is
-- not there.
pub revoke_foreign :
    (user id now : ℕ) (s : Sessions)
    → count_where (owned user id) s.rows ≡ 0
    → revoke user id now s ≡ err (not_found "Session not found")
unfolding revoke
revoke_foreign user id now s none_owned = ground (arith, not_owned user id s.rows none_owned)

-- What `revokeAll` owes to a table, row by row, with how many sessions it has ended: of the user's
-- sessions that are not revoked, each but the spared one is revoked now, and every other row stays.
pub data Ends (user reason : ℕ) (spared : Option ℕ) (now : ℕ)
    : List AuthSession → List AuthSession → ℕ → Type 0 where
  no_rows : Ends user reason spared now [] [] 0
  ended_row :
      {row : AuthSession} {rows rows' : List AuthSession} {n : ℕ}
      → row.user_id ≡ user
      → row.revoked_at ≡ none
      → spared ≢ some row.session_id
      → Ends user reason spared now rows rows' n
      → Ends user reason spared now
          (row ∷ rows)
          (record row { revoked_at = some now; revoke_reason = some reason } ∷ rows')
          (suc n)
  kept_row :
      {row : AuthSession} {rows rows' : List AuthSession} {n : ℕ}
      → (row.user_id ≢ user) ⊎ (row.revoked_at ≢ none) ⊎ (spared ≡ some row.session_id)
      → Ends user reason spared now rows rows' n
      → Ends user reason spared now (row ∷ rows) (row ∷ rows') n

ended-conditions :
    (user : ℕ) (spared : Option ℕ) (row : AuthSession)
    → is_ended user spared row ≡ true
    → (row.user_id ≡ user) × (row.revoked_at ≡ none) × (spared ≢ some row.session_id)
ended-conditions user spared row h =
    (ground (arith, h), ground (arith, h), λ same. ground (arith, h, same))

kept-reason :
    (user : ℕ) (spared : Option ℕ) (row : AuthSession)
    → is_ended user spared row ≡ false
    → (row.user_id ≢ user) ⊎ (row.revoked_at ≢ none) ⊎ (spared ≡ some row.session_id)
kept-reason user spared row h = ground (arith, h)

rows_end :
    (user reason : ℕ) (spared : Option ℕ) (now : ℕ) (rows : List AuthSession)
    → Ends user reason spared now rows
        (update_many (is_ended user spared) (end_session reason now) rows)
        (count_where (is_ended user spared) rows)
rows_end user reason spared now [] = no_rows
rows_end user reason spared now (row ∷ rows) =
    let later = rows_end user reason spared now rows in
    elim (Bool-cases (is_ended user spared row)) [
      | inl chosen ↦
          let (mine, active, other) = ended-conditions user spared row chosen in
          rw chosen (ended_row mine active other later)
      | inr spared_row ↦ rw spared_row (kept_row (kept-reason user spared row spared_row) later)
    ]

-- `revokeAll` revokes each session of the user that is neither revoked nor spared, now and for the reason
-- given, leaves every other row as it is, and answers how many it has revoked.
pub revoke_all-Ends :
    (user reason now : ℕ) (spared : Option ℕ) (s : Sessions)
    → Ends user reason spared now s.rows
        (revoke_all user reason spared now s).1.rows
        (revoke_all user reason spared now s).0
unfolding revoke_all
revoke_all-Ends user reason now spared s = rows_end user reason spared now s.rows
