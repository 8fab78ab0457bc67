-- ===== src/Access/Sessions/Tests.antt =====
-- Two sessions of one user, the first revoked.
use bonde_backend.Access.Sessions.Revocation.{
  Ends, signed_in, all_ended, start, and_then, Steps, revoked_forever, revoke_all-Ends,
}
use bonde_backend.Common.{◌≡◌, refl, none, some, [], ◌∷◌, true}
use bonde_backend.Access.Sessions.{record_session, revoke_all, is_revoked, Sessions}

abbrev two_sessions : Sessions
two_sessions = record {
  rows =
      record {
        id = 1;
        user_id = 7;
        session_id = 11;
        user_agent = none;
        ip_address = none;
        last_used_at = 5;
        expires_at = 900;
        revoked_at = some 6;
        revoke_reason = some 0;
      }
      ∷ record {
        id = 2;
        user_id = 7;
        session_id = 12;
        user_agent = none;
        ip_address = none;
        last_used_at = 5;
        expires_at = 900;
        revoked_at = none;
        revoke_reason = none;
      }
      ∷ [];
  audit = [];
}

-- The user revokes the rest, and the first session asks for another token.
abbrev later_sessions : Sessions
later_sessions = record_session 11 7 3600 none none 3 30 (revoke_all 7 3 none 10 two_sessions).1

two-Steps : Steps two_sessions later_sessions
two-Steps = and_then (and_then start (all_ended 7 3 10 none)) (signed_in 11 7 3600 3 30 none none)

revoked_forever_example : is_revoked (some 11) later_sessions ≡ true
unfolding is_revoked
revoked_forever_example = revoked_forever 11 two_sessions later_sessions two-Steps refl

revoke_all-Ends_example :
    Ends 7 3 none 10 two_sessions.rows
      (revoke_all 7 3 none 10 two_sessions).1.rows
      (revoke_all 7 3 none 10 two_sessions).0
revoke_all-Ends_example = revoke_all-Ends 7 3 10 none two_sessions
