-- ===== src/Server/Auth.antt =====
-- The limit on failed attempts in server/src/auth.rs. An address is a number, an `Instant` is in
-- nanoseconds, and `duration_since` is zero for an earlier instant.
pub mod Rate
pub mod Sessions
pub mod Verify
pub mod Login
pub mod Cookie
pub mod Register
pub mod Onetime
use webshooter.Base.{
  ℕ, ◌+◌, ◌-◌, ◌*◌, ◌%◌, ◌^◌, Bool, true, false, Option, none, some, ◌==◌, ltb, if◌then◌else◌,
}

abbrev pub rate_limit_window : ℕ
rate_limit_window = 60 * 10 ^ 9

pub record RateLimitEntry : Type 0 where
  pub count : ℕ
  pub window_start : ℕ

abbrev pub RateLimits : Type 0
RateLimits = ℕ → Option RateLimitEntry

abbrev pub put : ℕ → Option RateLimitEntry → RateLimits → RateLimits
put ip entry limits = λ a. if a == ip then entry else limits a

-- Both users of an entry start a new window first where the old one is over.
abbrev pub renewed : ℕ → RateLimitEntry → RateLimitEntry
renewed now entry =
    if ltb rate_limit_window (now - entry.window_start)
    then record { count = 0; window_start = now }
    else entry

abbrev check_entry : ℕ → ℕ → ℕ → Option RateLimitEntry → RateLimits → RateLimits × Bool
check_entry ip max_attempts now none limits = (limits, true)
check_entry ip max_attempts now (some entry) limits =
    (put ip (some (renewed now entry)) limits, ltb (renewed now entry).count max_attempts)

unfoldable pub check_rate_limit : ℕ → ℕ → ℕ → RateLimits → RateLimits × Bool
check_rate_limit ip max_attempts now limits = check_entry ip max_attempts now (limits ip) limits

abbrev failed_entry : ℕ → Option RateLimitEntry → RateLimitEntry
failed_entry now none = record { count = 1; window_start = now }
failed_entry now (some entry) = record (renewed now entry) {
  count = ((renewed now entry).count + 1) % 2 ^ 32;
}

unfoldable pub record_rate_limit_failure : ℕ → ℕ → RateLimits → RateLimits
record_rate_limit_failure ip now limits = put ip (some (failed_entry now (limits ip))) limits

unfoldable pub reset_rate_limit : ℕ → RateLimits → RateLimits
reset_rate_limit ip limits = put ip none limits

-- What `rate_limited` answers: it refuses with 429, or gives what `inner` gave.
pub data Answer : Type 0 where
  too_many_requests : Answer
  accepted : Answer
  rejected : Answer

-- `now` is read at the check and `later` after `inner`, which succeeds or not.
unfoldable pub rate_limited : ℕ → ℕ → ℕ → ℕ → Bool → RateLimits → RateLimits × Answer
unfolding check_rate_limit record_rate_limit_failure reset_rate_limit
rate_limited ip max_attempts now later inner limits =
    let (checked, allowed) = check_rate_limit ip max_attempts now limits in
    if allowed
    then (if inner
        then (reset_rate_limit ip checked, accepted)
        else (record_rate_limit_failure ip later checked, rejected))
    else (checked, too_many_requests)
