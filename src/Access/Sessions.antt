-- ===== src/Access/Sessions.antt =====
-- src/modules/auth/services/auth-sessions.service.ts: the sessions of a user's devices, mirrored from the
-- identity provider.
pub mod Revocation
pub mod Tests
use bonde_backend.Common.{
  ℕ, ◌+◌, ◌*◌, ◌-◌, suc, Bool, true, false, not, ◌&&◌, ◌||◌, Option, none, some, List, [], ◌∷◌, leb,
  ltb, ◌==◌, is_some, same_id, length, if◌then◌else◌,
}
use bonde_backend.Common.Table.{find_first, update_many, count_where}
use bonde_backend.Common.Text.{Text, is_space, is_blank}
use bonde_backend.Common.Http.{Exception, not_found, Result, ok, err}

-- A row of `auth_sessions`; `revoke_reason` is a number for each reason, `by_user` for 'user'.
pub record AuthSession : Type 0 where
  pub id : ℕ
  pub user_id : ℕ
  pub session_id : ℕ
  pub user_agent : Option Text
  pub ip_address : Option Text
  pub last_used_at : ℕ
  pub expires_at : ℕ
  pub revoked_at : Option ℕ
  pub revoke_reason : Option ℕ

-- What `audit.record` is given.
pub data AuditEntry : Type 0 where
  revoked_one : ℕ → ℕ → AuditEntry
  revoked_many : ℕ → ℕ → ℕ → AuditEntry

pub record Sessions : Type 0 where
  pub rows : List AuthSession
  pub audit : List AuditEntry

abbrev pub by_user : ℕ
by_user = 0

abbrev drop_spaces : Text → Text
drop_spaces [] = []
drop_spaces (c ∷ t) = if is_space c then drop_spaces t else c ∷ t

abbrev drop_end : Text → Text
drop_end [] = []
drop_end (c ∷ t) = if is_blank (c ∷ t) then [] else c ∷ drop_end t

abbrev pub take : ℕ → Text → Text
take n [] = []
take n (c ∷ t) = let rest = take (n - 1) t in if n == 0 then [] else c ∷ rest

-- `clip`: the text trimmed and cut, `none` if nothing is left.
unfoldable pub clip : Option Text → ℕ → Option Text
clip none max = none
clip (some value) max =
    let trimmed = drop_end (drop_spaces value) in
    if length trimmed == 0
    then none
    else some (if ltb max (length trimmed) then take max trimmed else trimmed)

abbrev pub has_session : ℕ → AuthSession → Bool
has_session session_id row = row.session_id == session_id

abbrev pub touch : ℕ → ℕ → AuthSession → AuthSession
touch now expires row = record row { last_used_at = now; expires_at = expires }

-- `record`, for a session that the provider names; `fresh` is what `randomUUID` gives.
unfoldable pub record_session : ℕ → ℕ → ℕ → Option Text → Option Text → ℕ → ℕ → Sessions → Sessions
record_session session_id user expires_in agent address fresh now s =
    let expires = now + expires_in * 1000 in
    elim (find_first (has_session session_id) s.rows) [
      | some existing ↦ if is_some existing.revoked_at then s else record s {
        rows =
            update_many (λ (row : AuthSession). row.id == existing.id) (touch now expires) s.rows;
      }
      | none ↦ record s {
        rows =
            record {
              id = fresh;
              user_id = user;
              session_id = session_id;
              user_agent = clip agent 512;
              ip_address = clip address 64;
              last_used_at = now;
              expires_at = expires;
              revoked_at = none;
              revoke_reason = none;
            }
            ∷ s.rows;
      }
    ]

unfoldable pub is_revoked : Option ℕ → Sessions → Bool
is_revoked none s = false
is_revoked (some session_id) s = elim (find_first (has_session session_id) s.rows) [
  | none ↦ false
  | some row ↦ is_some row.revoked_at
]

abbrev pub end_session : ℕ → ℕ → AuthSession → AuthSession
end_session reason now row = record row { revoked_at = some now; revoke_reason = some reason }

abbrev pub owned : ℕ → ℕ → AuthSession → Bool
owned user id row = row.id == id && row.user_id == user

unfoldable pub revoke : ℕ → ℕ → ℕ → Sessions → Result Sessions
revoke user id now s = elim (find_first (owned user id) s.rows) [
  | none ↦ err (not_found "Session not found")
  | some row ↦
      if is_some row.revoked_at
      then ok s
      else ok (record {
        rows = update_many (λ (r : AuthSession). r.id == row.id) (end_session by_user now) s.rows;
        audit = revoked_one user row.id ∷ s.audit;
      })
]

-- The active sessions of a user, less the spared one.
abbrev pub is_ended : ℕ → Option ℕ → AuthSession → Bool
is_ended user spared row =
    row.user_id == user
    && not (is_some row.revoked_at)
    && not (same_id (some row.session_id) spared)

unfoldable pub revoke_all : ℕ → ℕ → Option ℕ → ℕ → Sessions → ℕ × Sessions
revoke_all user reason spared now s =
    let count = count_where (is_ended user spared) s.rows in
    (
      count,
      record {
        rows = update_many (is_ended user spared) (end_session reason now) s.rows;
        audit = if ltb 0 count then revoked_many user reason count ∷ s.audit else s.audit;
      },
    )
