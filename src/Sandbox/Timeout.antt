-- ===== src/Sandbox/Timeout.antt =====
-- src/orchestra/sandbox/lcb_official.py: the bound on the wall clock of a worker, in milliseconds.
use codename_madagascar.Prelude.{ℕ, zero, suc, ◌+◌, ◌*◌, ◌≤◌, min, max, ◌⊎◌, arith, ◌≡◌}

-- `compute_worker_wall_timeout`
unfoldable pub worker_wall_timeout :
    (per_test_ms test_count worker_grace_ms max_worker_wall_ms : ℕ) → ℕ
worker_wall_timeout per_test test_count grace max_wall =
    min max_wall ((per_test + 1000) * max 1 test_count + grace)

-- The bound is never above the cap, and is the cap or leaves each test its time and one second.
pub worker_wall_timeout_lem :
    (per_test test_count grace max_wall : ℕ)
    → (worker_wall_timeout per_test test_count grace max_wall ≤ max_wall)
      × ((worker_wall_timeout per_test test_count grace max_wall ≡ max_wall)
          ⊎ ((per_test + 1000) * test_count + grace
              ≤ worker_wall_timeout per_test test_count grace max_wall))
unfolding worker_wall_timeout
worker_wall_timeout_lem per_test zero grace max_wall = ground arith
worker_wall_timeout_lem per_test (suc test_count) grace max_wall = ground arith
