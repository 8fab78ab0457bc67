-- ===== src/Access/Passcode/Tests.antt =====
-- One user, and a derivation that puts the salt before the passcode.
use bonde_backend.Access.Passcode.Lockout.{lockout, create_validates, guess_all}
use bonde_backend.Common.Http.{conflict, unauthorized, err, ok}
use bonde_backend.Common.{◌↔◌, ℕ, ◌≡◌, refl, arith, none, List, [], ◌∷◌}
use bonde_backend.Common.Text.{Text-discrete, Text}
use bonde_backend.Access.Passcode.{update, create, verify, validate, Credentials, Limits}

abbrev salted : Text → Text → Text
salted passcode [] = passcode
salted passcode (c ∷ salt) = c ∷ salted passcode salt

abbrev three_tries : Limits
three_tries = record { max_attempts = 3; lock_minutes = 15 }

abbrev right : Text
right = b'4' ∷ b'2' ∷ []

abbrev wrong : Text
wrong = b'1' ∷ b'1' ∷ []

abbrev stored : Credentials
stored = record {
  id = 1;
  user_id = 7;
  salt = b's' ∷ [];
  hash = b's' ∷ right;
  failed_attempts = 0;
  locked_until = none;
}

abbrev two_wrong : List (ℕ × Text)
two_wrong = (10, wrong) ∷ (20, wrong) ∷ []

abbrev locked_rows : List Credentials
locked_rows =
    (validate salted three_tries 7 wrong 30
      (guess_all salted three_tries 7 two_wrong (stored ∷ []))).1

lockout_example :
    validate salted three_tries 7 right 5000 locked_rows
    ≡ (err (unauthorized "Too many failed attempts"), locked_rows)
unfolding verify Text-discrete
lockout_example =
    lockout salted three_tries 7 two_wrong wrong 30 5000 right (stored ∷ []) stored refl refl
      (refl, (refl, tt)) refl refl (omega arith)

abbrev created : List Credentials
created = (create salted three_tries 7 right (b's' ∷ []) 1 []).1

create_validates_example :
    ((validate salted three_tries 7 right 5 created).0 ≡ ok tt)
    × ((validate salted three_tries 7 wrong 5 created).0 ≡ ok tt
        ↔ (salted wrong (b's' ∷ []) ≡ salted right (b's' ∷ [])))
    × (create salted three_tries 7 wrong (b't' ∷ []) 2 created
        ≡ (err (conflict "Passcode already set"), created))
create_validates_example =
    create_validates salted three_tries 7 right wrong (b's' ∷ []) (b't' ∷ []) 1 2 5 [] refl

abbrev replaced : List Credentials
replaced = (update salted three_tries 7 right wrong (b't' ∷ []) 5 (stored ∷ [])).1
