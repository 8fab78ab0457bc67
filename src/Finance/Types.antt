-- ===== src/Finance/Types.antt =====
-- src/modules/finance/finance.types.ts: currencies and the keys of the ledger's accounts. A string
-- that the code only compares (an identifier) is a number. A key is kept as the parts of its
-- template, which determine the string and are determined by it: the prefix stands before the first
-- colon and the currency, which holds no colon, behind the last.
use bonde_backend.Common.{ℕ, List, [], ◌∷◌, ℕ_discrete}
use bonde_backend.Common.Http.{Result, ok, err, bad_request}

-- `other n` is any string but "NGN" and "USD".
pub data Currency : Type 0 where
  ngn usd : Currency
  other : ℕ → Currency

unfoldable pub Currency-discrete : Discrete Currency
unfolding ℕ_discrete
Currency-discrete = hlevel ℕ_discrete

pub currencies : List Currency
currencies = ngn ∷ usd ∷ []

unfoldable pub currency_of : Currency → Result Currency
currency_of ngn = ok ngn
currency_of usd = ok usd
currency_of (other n) = err (bad_request "Unsupported currency")

-- The first argument of `systemKey` in the callers.
pub data SystemAccount : Type 0 where
  bank_clearing card_clearing fees fee_variance billing_revenue : SystemAccount

pub data AccountKey : Type 0 where
  wallet_key card_key hold_key : ℕ → Currency → AccountKey
  system_key : SystemAccount → Currency → AccountKey

unfoldable pub AccountKey-discrete : Discrete AccountKey
unfolding ℕ_discrete
AccountKey-discrete = hlevel ℕ_discrete

-- The prefix of a journal's reference, in the callers of `post`. The references of different prefixes
-- are different texts.
pub data Prefix : Type 0 where
  authorization reserve release issue payout payout_reversal deposit declined_hold issuer_close
        retire close billing reversal capture refund operation :
      Prefix

pub record Reference : Type 0 where
  pub prefix : Prefix
  pub id : ℕ

unfoldable pub Prefix-discrete : Discrete Prefix
Prefix-discrete = hlevel
