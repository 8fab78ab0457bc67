-- ===== src/Access/Throttler.antt =====
-- src/common/throttling/memory-throttler.storage.ts: the rate limit of one process.
pub mod Window
pub mod Tests
use bonde_backend.Common.{
  ℕ, ◌+◌, ◌-◌, suc, Bool, true, false, not, ◌&&◌, Option, none, some, List, [], ◌∷◌, leb, ltb, ◌==◌,
  if◌then◌else◌,
}
use bonde_backend.Common.Int.{ℤ, pos, ◌+ℤ◌, negate}

pub record MemoryBucket : Type 0 where
  pub count : ℕ
  pub expires_at : ℕ
  pub blocked_until : ℕ

-- `ThrottlerStorageRecord`; a bucket that is blocked beyond its window reports a negative time.
pub record Answer : Type 0 where
  pub total_hits : ℕ
  pub time_to_expire : ℤ
  pub is_blocked : Bool
  pub time_to_block_expire : ℕ

-- The limits that the guard passes on.
pub record Throttle : Type 0 where
  pub ttl : ℕ
  pub limit : ℕ
  pub block_duration : ℕ

-- The map from `${throttlerName}:${key}`, as a number, to its bucket.
abbrev pub Buckets : Type 0
Buckets = ℕ → Option MemoryBucket

abbrev pub set_bucket : ℕ → MemoryBucket → Buckets → Buckets
set_bucket key bucket buckets other = if other == key then some bucket else buckets other

abbrev pub blocked_at : ℕ → MemoryBucket → Bool
blocked_at now bucket = ltb now bucket.blocked_until

abbrev pub time_left : ℕ → MemoryBucket → ℤ
time_left now bucket = pos bucket.expires_at +ℤ negate (pos now)

-- The first request of a window.
abbrev pub open_window : Throttle → ℕ → Answer × MemoryBucket
open_window t now = (
  record {
    total_hits = 1;
    time_to_expire = pos t.ttl;
    is_blocked = false;
    time_to_block_expire = 0;
  },
  record { count = 1; expires_at = now + t.ttl; blocked_until = now },
)

-- A request in a window that is not blocked.
unfoldable pub count_hit : Throttle → ℕ → MemoryBucket → Answer × MemoryBucket
count_hit t now bucket =
    let hits_exceeded = ltb t.limit (suc bucket.count) && ltb 0 t.block_duration in
    (
      record {
        total_hits = suc bucket.count;
        time_to_expire = time_left now bucket;
        is_blocked = hits_exceeded;
        time_to_block_expire = if hits_exceeded then t.block_duration else 0;
      },
      record bucket {
        count = suc bucket.count;
        blocked_until = if hits_exceeded then now + t.block_duration else bucket.blocked_until;
      },
    )

-- What `increment` answers, and the bucket it leaves.
unfoldable pub hit : Throttle → ℕ → Option MemoryBucket → Answer × MemoryBucket
hit t now none = open_window t now
hit t now (some bucket) =
    if leb bucket.expires_at now && not (blocked_at now bucket)
    then open_window t now
    else if blocked_at now bucket
    then (
      record {
        total_hits = t.limit;
        time_to_expire = time_left now bucket;
        is_blocked = true;
        time_to_block_expire = bucket.blocked_until - now;
      },
      bucket,
    )
    else count_hit t now bucket

unfoldable pub increment : Throttle → ℕ → ℕ → Buckets → Answer × Buckets
increment t key now buckets =
    ((hit t now (buckets key)).0, set_bucket key (hit t now (buckets key)).1 buckets)
