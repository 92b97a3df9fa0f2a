-- ===== src/Sandbox/Docker/Tests.antt =====
-- src/orchestra/sandbox/docker.py: the counts of a run.
use codename_madagascar.Prelude.{
  ℕ, ◌+◌, ◌≤◌, true, false, List, length, is_some, string_eq, ◌≡◌, ◌⊎◌,
}
use codename_madagascar.Executors.Models.{VisibleTestResult, SandboxExecutionResult}
use codename_madagascar.Sandbox.Worker.{tally}
use codename_madagascar.Sandbox.Docker.{Container}

module _ (container : Container) where
  abbrev passed_in : List VisibleTestResult → ℕ
  passed_in = tally (λ (item : VisibleTestResult). item.passed)

  abbrev errors_in : List VisibleTestResult → ℕ
  errors_in = tally (λ (item : VisibleTestResult). is_some item.runtime_error)

  abbrev timeouts_in : List VisibleTestResult → ℕ
  timeouts_in = tally (λ (item : VisibleTestResult). item.timed_out)

  -- The code was compiled in time, and each test is counted at most once among the passed, the
  -- failed and the late ones.
  abbrev pub IsCounted : ℕ → SandboxExecutionResult → Type 0
  IsCounted tests result =
      (result.total_count ≡ tests)
      × ((result.compiled ≡ false) × (result.passed_count ≡ 0)
          ⊎ (result.compiled ≡ true)
            × (length result.per_test_visible_results ≡ tests)
            × (result.passed_count + result.runtime_errors + result.timeouts ≤ tests))
