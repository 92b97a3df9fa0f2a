-- ===== src/Executors/Harness/Verdict.antt =====
-- src/orchestra/executors/harness.py: when a payload reports a pass.
use codename_madagascar.Prelude.Integers.{pos}
use codename_madagascar.Prelude.{
  ℕ, zero, suc, Bool, true, ◌&&◌, none, List, ok, ltb, ◌==◌, nat_eq, string_eq, if◌then◌else◌, ◌≡◌,
  ◌<◌, ◌↔◌, refl, >>=-eq-ok, ok-injective, subst, ap, arith,
}
use codename_madagascar.Executors.Models.{
  PublicExample, SandboxExecutionResult, PublicHarnessResultArtifact,
}
use codename_madagascar.Executors.Harness.{first_failed, failed_example, ratio, harness_payload}

-- The sandbox ran at least one test and passed all of them, without an error or a timeout.
abbrev pub IsClean : SandboxExecutionResult → Type 0
IsClean result =
    (0 < result.total_count)
    × (result.compiled ≡ true)
    × (result.passed_count ≡ result.total_count)
    × (result.runtime_errors ≡ 0)
    × (result.timeouts ≡ 0)

-- The payload reports tests, a ratio of as many passed as there are, and no compile error. A ratio
-- (n, d) is n over d + 1.
abbrev pub IsFull : SandboxExecutionResult → PublicHarnessResultArtifact → Type 0
IsFull result payload =
    (payload.harness_available ≡ true)
    × (payload.compile_success ≡ true)
    × ((d : ℕ) × (result.total_count ≡ suc d) × (payload.pass_ratio ≡ (pos (suc d), d)))
    × (payload.failure_summary.compile_error ≡ none)

all_clear :
    (compiled : Bool) (passed total errors timeouts : ℕ)
    → ((ltb 0 total && (compiled && (passed == total && (errors == 0 && timeouts == 0)))) ≡ true)
      ↔ ((0 < total) × (compiled ≡ true) × (passed ≡ total) × (errors ≡ 0) × (timeouts ≡ 0))
all_clear compiled passed total errors timeouts = ground arith

full_ratio :
    (passed total : ℕ)
    → 0 < total
    → passed ≡ total
    → (d : ℕ) × (total ≡ suc d) × (ratio passed total ≡ (pos (suc d), d))
full_ratio passed zero some_test same = absurd (omega arith)
full_ratio passed (suc total) some_test same = (total, refl, ap (λ (n : ℕ). (pos n, total)) same)

-- A payload reports a pass exactly where the sandbox compiled the code, ran at least one test, and
-- passed all of them without an error or a timeout; the payload then reports that tests are
-- available, a compiled program, a full ratio and no compile error.
pub harness_payload-IsClean :
    (examples : List PublicExample) (result : SandboxExecutionResult)
    (payload : PublicHarnessResultArtifact)
    → harness_payload examples result ≡ ok payload
    → (payload.passed ≡ true) ↔ (IsClean result × IsFull result payload)
unfolding harness_payload
harness_payload-IsClean examples result payload h =
    let (example, _, h₁) =
      >>=-eq-ok (failed_example examples (first_failed result.per_test_visible_results)) _ h in
    let clear =
      all_clear result.compiled result.passed_count result.total_count result.runtime_errors
        result.timeouts in
    subst
      (λ (p : PublicHarnessResultArtifact). (p.passed ≡ true) ↔ (IsClean result × IsFull result p))
      (ok-injective h₁)
      (
        λ passed.
            let (some_test, compiled, same, errors, timeouts) = clear.0 passed in
            (
              (some_test, compiled, same, errors, timeouts),
              (
                ground arith,
                compiled,
                full_ratio result.passed_count result.total_count some_test same,
                ap (λ (b : Bool). if b then none else result.stderr_summary) compiled,
              ),
            ),
        λ (clean, _). clear.1 clean,
      )
