-- ===== src/Finance/Events/Samples.antt =====
-- A purchase for which 3.10 are held, and a report that settles 3.00 of them.
use bonde_backend.Finance.Samples.{database}
use bonde_backend.Finance.Worker.Samples.{held_ledger}
use bonde_backend.Common.Http.{ok}
use bonde_backend.Finance.Samples.{database}
use bonde_backend.Finance.Types.{ngn}
use bonde_backend.Finance.Events.Transactions.{RemoteTransaction}
use bonde_backend.Finance.Database.{
  received, transaction_created, webhook, Database, InboxRow, Authorization, purchase, held,
  approved,
}
use bonde_backend.Common.{some, none, [], ◌∷◌, false}

abbrev pub auth : Authorization
auth = record {
  id = 20;
  user_id = 7;
  card_id = 3;
  currency = ngn;
  amount = 310;
  settled = 0;
  refunded = 0;
  released = 0;
  status = held;
  merchant_id = [];
  merchant_identity_id = [];
  request_type = purchase;
  response_code = approved;
  approval_expires_at = none;
  approval_used_at = none;
}

abbrev pub row : InboxRow
row = record {
  id = 61;
  is_safe_haven = false;
  reference = webhook 1;
  event_type = transaction_created;
  object_id = 900;
  session_id = none;
  card_id = none;
  status = received;
}

abbrev pub purchasing : Database
purchasing = record database { ledger = held_ledger; authorizations = auth ∷ []; inbox = row ∷ [] }

-- 3.00 of the 3.10 that are held.
abbrev pub settlement : RemoteTransaction
settlement = record {
  id = some 900;
  card = ok 30;
  currency = ngn;
  authorization = ok (some 20);
  amount_text = some (b'3' ∷ b'.' ∷ b'0' ∷ b'0' ∷ []);
}
