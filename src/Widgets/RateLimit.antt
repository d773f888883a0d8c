-- ===== src/Widgets/RateLimit.antt =====
-- backend/app/modules/widgets/rate_limit.py: `SlidingWindowRateLimiter`. Times are the numbers of the
-- monotonic clock; the cutoff `now - window_seconds` may be before time 0, so `hit < cutoff` is
-- written `hit + window_seconds < now`. Each call runs under the limiter's lock, so calls are a list.
use ai_customer_support_plat.Prelude.{
  ℕ, ◌+◌, ltb, leb, ◌==◌, Bool, true, false, List, [], ◌∷◌, ◌++◌, if◌then◌else◌, length,
}

pub record Limits : Type 0 where
  pub max_requests : ℕ
  pub window_seconds : ℕ

-- `_hits`, a `defaultdict(deque)`: a key without an entry has the empty bucket.
abbrev pub Hits : Type 0
Hits = ℕ → List ℕ

-- `while bucket and bucket[0] < cutoff: bucket.popleft()`
unfoldable pub expire : ℕ → ℕ → List ℕ → List ℕ
expire window now [] = []
expire window now (hit ∷ bucket) =
    if ltb (hit + window) now then expire window now bucket else hit ∷ bucket

-- The bucket of the key as a call leaves it: without the expired hits, and with the new hit unless the call
-- is refused.
unfoldable pub admit : Limits → ℕ → List ℕ → Bool × List ℕ
admit l now bucket =
    if leb l.max_requests (length bucket) then (false, bucket) else (true, bucket ++ now ∷ [])

unfoldable pub set_bucket : ℕ → List ℕ → Hits → Hits
set_bucket key bucket hits k = if k == key then bucket else hits k

-- `check`: whether the call passes, or is answered with status 429.
unfoldable pub check : Limits → ℕ → ℕ → Hits → Bool × Hits
check l key now hits =
    let r = admit l now (expire l.window_seconds now (hits key)) in (r.0, set_bucket key r.1 hits)

-- Calls with their keys and times, in order; the answers and the last state.
unfoldable pub check_all : Limits → List (ℕ × ℕ) → Hits → List Bool × Hits
check_all l [] hits = ([], hits)
check_all l (call ∷ calls) hits =
    let first = check l call.0 call.1 hits in
    let rest = check_all l calls first.1 in (first.0 ∷ rest.0, rest.1)
