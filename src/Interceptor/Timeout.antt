-- ===== src/Interceptor/Timeout.antt =====
-- The deadline of the active interceptor, in Go's int64 nanoseconds.
use k8s_eviction_controller.Prelude.{
  ℕ, ◌+◌, ◌*◌, ◌<◌, ◌^◌, ltb_ℤ, ℤ, pos, negsuc, scale, IsInt32, ◌≡◌, ◌↔◌, true, arith,
}
use k8s_eviction_controller.Api.Constants.{second}
use k8s_eviction_controller.Interceptor.{deadline_of, since}

-- The multiplication never overflows: an int32 of seconds fits an int64 of nanoseconds.
pub deadline_of-exact : (seconds : ℤ) → IsInt32 seconds → deadline_of seconds ≡ scale seconds second
unfolding deadline_of
deadline_of-exact (pos n) h = ground arith
deadline_of-exact (negsuc n) h = ground arith

-- With a deadline of `n` seconds, the test passes exactly when the clock is more than `n` seconds
-- past the heartbeat; the saturation of time.Since never shows.
pub overdue_iff :
    (n heartbeat time : ℕ)
    → n < 2 ^ 31
    → (ltb_ℤ (deadline_of (pos n)) (since time heartbeat) ≡ true) ↔ (heartbeat + n * second < time)
unfolding deadline_of since
overdue_iff n heartbeat time h = ground arith
