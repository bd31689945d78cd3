-- ===== src/RateLimit.antt =====
-- The sliding windows that bound requests: `RateLimiter.allow` of api/main.py,
-- `_upload_rate_limit_ok` of api/routes_upload.py. A time is the number of ticks of
-- `time.monotonic`, and a window that starts at `now - 60.0` is compared by adding to the older
-- time. The lock around a call makes it one step.
pub mod Window
use safe_cloud.Prelude.{
  ℕ, String, List, [], ◌∷◌, ◌++◌, Option, none, some, Bool, true, false, ◌==◌, ◌+◌, ltb, leb,
  length, if◌then◌else◌,
}

-- `while q and q[0] < window_start: q.popleft()`
unfoldable pub expire : (window now : ℕ) → List ℕ → List ℕ
expire window now [] = []
expire window now (t ∷ q) =
    let rest = expire window now q in if ltb (t + window) now then rest else t ∷ q

-- One call for one key: whether it is granted, and the key's queue afterwards.
unfoldable pub allow : (window limit now : ℕ) → List ℕ → Bool × List ℕ
unfolding expire
allow window limit now q =
    let live = expire window now q in
    if leb limit (length live) then (false, live) else (true, live ++ now ∷ [])

-- The queues of all keys, empty at first.
abbrev pub Hits : Type 0
Hits = String → List ℕ

unfoldable pub allow_key : (window limit now : ℕ) → String → Hits → Bool × Hits
allow_key window limit now key hits =
    let (granted, q) = allow window limit now (hits key) in
    (granted, λ k. if k == key then q else hits k)

-- `rate_limit_uploads_per_minute` of the settings, or 30.
abbrev pub upload_limit : Option ℕ → ℕ
upload_limit none = 30
upload_limit (some n) = n

unfoldable pub upload_rate_limit_ok :
    (minute now : ℕ) (setting : Option ℕ) → String → Hits → Bool × Hits
upload_rate_limit_ok minute now setting client_id hits =
    allow_key minute (upload_limit setting) now client_id hits
