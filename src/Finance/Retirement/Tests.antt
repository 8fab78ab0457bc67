-- ===== src/Finance/Retirement/Tests.antt =====
-- One lease on the provider of a card.
use bonde_backend.Common.Table.{find_first}
use bonde_backend.Common.Http.{conflict, err, ok}
use bonde_backend.Finance.Retirement.Marks.{
  enqueue_once, lease_excludes, is_retiring, release_foreign, release_frees, is_ok,
}
use bonde_backend.Finance.Retirement.{enqueue, release, lease}
use bonde_backend.Common.{is_some}
use bonde_backend.Common.{◌≡◌, refl, some, true, [], ◌∷◌, arith}
use bonde_backend.Finance.Samples.{database, card}
use bonde_backend.Finance.Database.{Database, Card, retiring}

abbrev leased_database : Database
leased_database = record database {
  cards = record card { provider_lease_owner = some 40; provider_lease_until = some 65000 } ∷ [];
}

first_lease : lease 3 40 5000 database ≡ ok leased_database
unfolding lease
first_lease = refl

lease_excludes_example :
    lease 3 41 60000 leased_database ≡ err (conflict "Another provider action is processing")
lease_excludes_example =
    lease_excludes 3 40 41 5000 60000 database leased_database (omega arith) first_lease
      (omega arith)

release_frees_example : is_ok (lease 3 41 6000 (release 3 40 leased_database)) ≡ true
release_frees_example = release_frees 3 40 41 5000 6000 database leased_database first_lease

release_foreign_example : (release 3 41 leased_database).cards ≡ leased_database.cards
release_foreign_example = release_foreign 3 41 leased_database (ground arith, tt)

abbrev retired_card : Card
retired_card = record card { retired_at = some 4000; retirement_status = some retiring }

enqueue_once_example :
    (is_some (find_first (is_retiring card) (enqueue 3 40 card database).operations) ≡ true)
    × (enqueue 3 41 card (enqueue 3 40 card database) ≡ enqueue 3 40 card database)
enqueue_once_example = enqueue_once 3 40 41 card database tt
