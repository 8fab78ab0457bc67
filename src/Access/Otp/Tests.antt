-- ===== src/Access/Otp/Tests.antt =====
-- One code, under a digest that puts a letter in front.
use bonde_backend.Access.Otp.SingleUse.{codes-IsSingle, consume_once, generate_consumes, IsSingle}
use bonde_backend.Common.{◌≡◌, refl, arith, List, [], ◌∷◌, true, false}
use bonde_backend.Common.Text.{text_eq, Text-discrete, Text}
use bonde_backend.Access.Otp.{OtpCode, email, generate_code, consume_code, invalidate}

abbrev digest : Text → Text
digest code = b'h' ∷ code

abbrev code : Text
code = b'4' ∷ b'2' ∷ b'4' ∷ b'2' ∷ []

abbrev other_code : Text
other_code = b'0' ∷ b'0' ∷ b'0' ∷ b'0' ∷ []

abbrev issued : List OtpCode
issued =
    record {
      id = 1;
      user_id = 7;
      code = b'h' ∷ code;
      channel = email;
      expires_at = 300100;
      used = false;
    }
    ∷ []

codes-IsSingle_example :
    IsSingle 7 email (generate_code digest 7 email other_code 2 200 issued)
    × IsSingle 7 email (consume_code digest 7 email other_code 200 issued).1
    × IsSingle 7 email (invalidate 7 email issued)
codes-IsSingle_example = codes-IsSingle digest 7 email other_code 2 200 issued (omega arith)

generate_consumes_example :
    let fresh = generate_code digest 7 email code 2 200 issued in
    ((consume_code digest 7 email code 300 fresh).0 ≡ true)
    × ((consume_code digest 7 email other_code 300 fresh).0
        ≡ text_eq (digest other_code) (digest code))
generate_consumes_example =
    generate_consumes digest 7 email code other_code 2 200 300 issued (omega arith)

opened : (consume_code digest 7 email code 200 issued).0 ≡ true
unfolding consume_code Text-discrete
opened = refl

consume_once_example :
    (consume_code digest 7 email code 300 (consume_code digest 7 email code 200 issued).1).0 ≡ false
consume_once_example = consume_once digest 7 email code code 200 300 issued (omega arith) opened
