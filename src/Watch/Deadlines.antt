-- ===== src/Watch/Deadlines.antt =====
-- What a wait may assume of `_left_ms`.
use tinyray.Common.{ℕ, ◌+◌, ◌*◌, ◌≤◌, none, some, ◌≡◌, ◌↔◌, arith}
use tinyray.Watch.{left_ms}

-- With a deadline, time is left exactly before it, and a wait as long as `left_ms` says is at least
-- one millisecond, reaches the deadline, and passes it by at most one millisecond.
pub left_ms_exact :
    (deadline now : ℕ)
    → ((left_ms (some deadline) now ≡ none) ↔ (deadline ≤ now))
      × ((ms : ℕ)
          → left_ms (some deadline) now ≡ some ms
          → (1 ≤ ms) × (deadline ≤ now + ms * 1000) × (now + ms * 1000 ≤ deadline + 1000))
unfolding left_ms
left_ms_exact deadline now = (((λ p. ground arith), (λ h. ground arith)), (λ ms h. ground arith))
