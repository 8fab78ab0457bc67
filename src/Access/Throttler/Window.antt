-- ===== src/Access/Throttler/Window.antt =====
-- How many requests of one window pass.
use bonde_backend.Common.{inr, inl, ltb}
use bonde_backend.Common.{Bool-cases}
use bonde_backend.Common.{
  ℕ, ◌+◌, ◌≤◌, ◌<◌, ◌≡◌, ◌≢◌, suc, refl, arith, false, none, some, List, [], ◌∷◌, All, length,
  if◌then◌else◌, min,
}
use bonde_backend.Access.Throttler.{MemoryBucket, Throttle, hit, count_hit, increment, Buckets}

-- The bucket after the requests at the given times.
abbrev pub hit_all : Throttle → List ℕ → MemoryBucket → MemoryBucket
hit_all t [] bucket = bucket
hit_all t (now ∷ times) bucket = hit_all t times (hit t now (some bucket)).1

-- How many requests at the given times pass.
abbrev pub passed : Throttle → List ℕ → MemoryBucket → ℕ
passed t [] bucket = 0
passed t (now ∷ times) bucket =
    let rest = passed t times (hit t now (some bucket)).1 in
    if (hit t now (some bucket)).0.is_blocked then rest else suc rest

-- A time within the window and before the end of any block that begins in it.
abbrev pub IsWithin : ℕ → ℕ → ℕ → Type 0
IsWithin start end now = (start ≤ now) × (now < end)

-- Beyond the limit nothing passes.
exhausted :
    (t : Throttle) (start end : ℕ) (times : List ℕ) (bucket : MemoryBucket)
    → 0 < t.block_duration
    → t.limit < bucket.count
    → bucket.expires_at ≡ end
    → All (IsWithin start end) times
    → passed t times bucket ≡ 0
unfolding hit count_hit
exhausted t start end [] bucket blocks over same within = refl
exhausted t start end (now ∷ times) bucket blocks over same within = ground (
  arith,
  within.0,
  blocks,
  over,
  same,
  exhausted t start end times bucket blocks over same within.1,
  exhausted t start end times (count_hit t now bucket).1 blocks (ground (arith, over))
      (ground (arith, same)) within.1,
)

-- Up to the limit every request passes.
counted :
    (t : Throttle) (start end : ℕ) (times : List ℕ) (bucket : MemoryBucket)
    → 0 < t.block_duration
    → bucket.count ≤ t.limit
    → bucket.blocked_until ≤ start
    → bucket.expires_at ≡ end
    → All (IsWithin start end) times
    → bucket.count + passed t times bucket ≡ min t.limit (bucket.count + length times)
unfolding hit count_hit
counted t start end [] bucket blocks under free same within = ground arith
counted t start end (now ∷ times) bucket blocks under free same within =
    elim (Bool-cases (ltb t.limit (suc bucket.count))) [
      | inl over ↦ ground (
        arith,
        within.0,
        blocks,
        under,
        free,
        same,
        over,
        exhausted t start end times (count_hit t now bucket).1 blocks (ground (arith, over))
            (ground (arith, same)) within.1,
      )
      | inr room ↦ ground (
        arith,
        within.0,
        blocks,
        under,
        free,
        same,
        room,
        counted t start end times (count_hit t now bucket).1 blocks (ground (arith, room))
            (ground (arith, free, room)) (ground (arith, same)) within.1,
      )
    ]

-- If the limit and the block duration are not 0, then of the requests of one window, its first
-- included, as many pass as the limit says or as there are, and the others are blocked.
pub window_passes :
    (t : Throttle) (now : ℕ) (times : List ℕ)
    → 0 < t.block_duration
    → 0 < t.limit
    → All (IsWithin now (now + t.ttl)) times
    → ((hit t now none).0.is_blocked ≡ false)
      × (suc (passed t times (hit t now none).1) ≡ min t.limit (suc (length times)))
unfolding hit
window_passes t now times blocks some_limit within =
    let opened : MemoryBucket = record {
      count = 1;
      expires_at = now + t.ttl;
      blocked_until = now;
    } in
    (
      refl,
      ground (
        arith,
        counted t now (now + t.ttl) times opened blocks (omega (arith, some_limit)) (omega arith)
            refl within,
      ),
    )

-- A request counts in its own bucket alone.
pub increment_others :
    (t : Throttle) (key other now : ℕ) (buckets : Buckets)
    → other ≢ key
    → ((increment t key now buckets).1 other ≡ buckets other)
      × ((increment t key now buckets).1 key ≡ some (hit t now (buckets key)).1)
unfolding increment
increment_others t key other now buckets differ = (ground (arith, differ), ground arith)
