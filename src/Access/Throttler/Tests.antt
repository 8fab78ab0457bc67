-- ===== src/Access/Throttler/Tests.antt =====
-- Two requests a minute.
use bonde_backend.Access.Throttler.Window.{window_passes, passed}
use bonde_backend.Common.{ℕ, ◌≡◌, arith, none, List, [], ◌∷◌, suc, false, min, length}
use bonde_backend.Access.Throttler.{Throttle, Buckets, hit}

abbrev two_a_minute : Throttle
two_a_minute = record { ttl = 60000; limit = 2; block_duration = 30000 }

abbrev three_more : List ℕ
three_more = 200 ∷ 300 ∷ 400 ∷ []

abbrev no_buckets : Buckets
no_buckets key = none

window_passes_example :
    ((hit two_a_minute 100 none).0.is_blocked ≡ false)
    × (suc (passed two_a_minute three_more (hit two_a_minute 100 none).1)
        ≡ min 2 (suc (length three_more)))
window_passes_example =
    window_passes two_a_minute 100 three_more (omega arith) (omega arith)
      ((omega arith, omega arith), ((omega arith, omega arith), ((omega arith, omega arith), tt)))
