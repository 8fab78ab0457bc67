-- ===== src/Finance/Merchants.antt =====
-- src/modules/finance/finance-merchants.service.ts: the merchant of an authorization, and candidates
-- for a card that waits for its merchant.
use bonde_backend.Common.{
  ℕ, Bool, false, not, ◌&&◌, ◌||◌, Option, none, some, List, [], ◌∷◌, leb, ltb, ◌==◌, length,
  is_some, if◌then◌else◌,
}
use bonde_backend.Common.Table.{find_first, count_where}
use bonde_backend.Common.Http.{
  provider_error, bad_request, Result, ok, ◌>>=◌, ◌>>◌, throw_if, or_throw,
}
use bonde_backend.Common.Text.{Text, text_eq}
use bonde_backend.Finance.Database.{
  Card, MerchantIdentity, MerchantAccess, Enrollment, Candidate, Database,
}

-- The `merchant` object of a request, whose identifier, category and name `string()` has found to be
-- texts that are not empty; `country` is `none` where it is not such a text.
pub record Merchant : Type 0 where
  pub merchant_id : Text
  pub country : Option Text
  pub mcc : ℕ

abbrev is_upper : ℕ → Bool
is_upper c = leb b'A' c && leb c b'Z'

-- `/^[A-Z]{2}$/`
unfoldable pub is_country : Text → Bool
is_country (a ∷ b ∷ []) = is_upper a && is_upper b
is_country _ = false

abbrev pub same_merchant : Merchant → Text → MerchantIdentity → Bool
same_merchant m country i = text_eq i.merchant_id m.merchant_id && text_eq i.country country

abbrev pub has_access : ℕ → Text → MerchantAccess → Bool
has_access user identity a = a.user_id == user && text_eq a.identity_id identity

-- The `upsert` of the identity (its environment is the deployment's, one for all rows); `fresh` is
-- what `randomUUID()` returns.
unfoldable pub upsert_identity :
    Text → Merchant → Text → List MerchantIdentity → MerchantIdentity × List MerchantIdentity
upsert_identity fresh m country rows = elim (find_first (same_merchant m country) rows) [
  | some row ↦ (row, rows)
  | none ↦
      let row : MerchantIdentity = record {
        id = fresh;
        merchant_id = m.merchant_id;
        country = country;
        mcc = m.mcc;
        revoked_at = none;
      } in
      (row, row ∷ rows)
]

unfoldable pub upsert_access : ℕ → Text → List MerchantAccess → List MerchantAccess
upsert_access user identity rows =
    if is_some (find_first (has_access user identity) rows)
    then rows
    else record { user_id = user; identity_id = identity } ∷ rows

-- `to_upper` is `String.prototype.toUpperCase`, `fresh` what `randomUUID()` returns.
unfoldable pub observe :
    (Text → Text) → Text → ℕ → Merchant → Database → Result (MerchantIdentity × Database)
observe to_upper fresh user m db = do
  given ← or_throw m.country (provider_error false 502)
  let country = to_upper given
  throw_if (not (is_country country) || ltb 100 (length m.merchant_id))
      (bad_request "Invalid merchant identity")
  let found = upsert_identity fresh m country db.identities
  ok (found.0, record db { identities = found.1; access = upsert_access user found.0.id db.access })

unfoldable pub candidate : Card → MerchantIdentity → ℕ → ℕ → Database → Database
candidate card identity authorization now db =
    elim (find_first
      (λ (e : Enrollment).
        e.card_id == card.id
        && e.user_id == card.user_id
        && e.is_pending
        && e.rules_version == card.rules_version
        && ltb now e.expires_at)
      db.enrollments) [
        | none ↦ db
        | some e ↦
            if is_some identity.revoked_at
              || leb 20 (count_where (λ (c : Candidate). c.enrollment_id == e.id) db.candidates)
              || is_some (
                  find_first
                    (λ (c : Candidate).
                      c.enrollment_id == e.id && c.authorization_id == authorization)
                    db.candidates)
            then db
            else record db {
              candidates =
                  record {
                    enrollment_id = e.id;
                    identity_id = identity.id;
                    authorization_id = authorization;
                  }
                  ∷ db.candidates;
            }
      ]
