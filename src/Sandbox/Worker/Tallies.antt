-- ===== src/Sandbox/Worker/Tallies.antt =====
-- src/orchestra/sandbox/lcb_worker.py: the counts of a public evaluation, and the final one.
use codename_madagascar.Prelude.Integers.{pos, negsuc}
use codename_madagascar.Prelude.{
  ℕ, suc, ◌+◌, ◌≤◌, String, Bool, true, false, ◌&&◌, Option, none, some, List, [], ◌∷◌, all, length,
  is_some, ltb, ◌==◌, nat_eq, ◌≡◌, ◌↔◌, ◌<◌, ap, refl, arith,
}
use codename_madagascar.Executors.Models.{
  AgentVisibleLcbTask, VisibleTestResult, SandboxExecutionResult,
}
use codename_madagascar.Sandbox.Worker.{
  Verdict, flag, number, CheckerMetadata, Checker, has_passed, visible_results, tally,
  checker_timeout, run_public, run_final, evaluate_public, all_passed, evaluate_private_final,
}

tally-visible_results :
    (metadata : CheckerMetadata) (index : ℕ) (results : List Verdict)
    → (tally (λ (item : VisibleTestResult). item.passed) (visible_results metadata index results)
        ≤ length results)
      × ((tally (λ (item : VisibleTestResult). item.passed) (visible_results metadata index results)
            == length results)
          ≡ all has_passed results)
unfolding tally visible_results
tally-visible_results metadata index [] = ground arith
tally-visible_results metadata index (value ∷ values) =
    ground (arith, tally-visible_results metadata (suc index) values)

disjoint_counts :
    (metadata : CheckerMetadata) (index : ℕ) (results : List Verdict)
    → tally (λ (item : VisibleTestResult). item.passed) (visible_results metadata index results)
        + tally
            (λ (item : VisibleTestResult). is_some item.runtime_error)
            (visible_results metadata index results)
        + tally
            (λ (item : VisibleTestResult). item.timed_out)
            (visible_results metadata index results)
      ≤ length results
unfolding tally visible_results
disjoint_counts metadata index [] = omega arith
disjoint_counts metadata index (flag true ∷ values) =
    ground (arith, disjoint_counts metadata (suc index) values)
disjoint_counts metadata index (flag false ∷ values) =
    ground (arith, disjoint_counts metadata (suc index) values)
disjoint_counts metadata index (number (pos n) ∷ values) =
    ground (arith, disjoint_counts metadata (suc index) values)
disjoint_counts metadata index (number (negsuc n) ∷ values) =
    ground (arith, disjoint_counts metadata (suc index) values)

length-visible_results :
    (metadata : CheckerMetadata) (index : ℕ) (results : List Verdict)
    → length (visible_results metadata index results) ≡ length results
unfolding visible_results
length-visible_results metadata index [] = refl
length-visible_results metadata index (value ∷ values) =
    ap suc (length-visible_results metadata (suc index) values)

-- The public evaluation compiled the code and has results for tests, and counts all of them as passed.
abbrev pub IsFull : SandboxExecutionResult → Type 0
IsFull result =
    (result.compiled ≡ true)
    × (0 < length result.per_test_visible_results)
    × (result.passed_count ≡ length result.per_test_visible_results)

-- The tests counted as passed, as runtime errors and as timeouts are together no more than the results.
abbrev pub IsTallied : SandboxExecutionResult → Type 0
IsTallied result =
    result.passed_count + result.runtime_errors + result.timeouts
    ≤ length result.per_test_visible_results

full_lem :
    (passed given shown : ℕ) (every : Bool)
    → shown ≡ given
    → (passed == given) ≡ every
    → ((ltb 0 given && every) ≡ true) ↔ ((true ≡ true) × (0 < shown) × (passed ≡ shown))
full_lem passed given shown every same h = ground arith

within : {n : ℕ} (shown given : ℕ) → shown ≡ given → n ≤ given → n ≤ shown
within shown given same h = omega arith

-- The final evaluation of the public tests of a task passes exactly where the public evaluation of the
-- same code compiles, has a result, and counts as many passed tests as results; and the tests
-- counted as passed, as runtime errors and as timeouts are together no more than the results.
pub evaluate_public_lem :
    (checker : Checker) (task : AgentVisibleLcbTask) (code : String) (per_test_ms elapsed_ms : ℕ)
    → ((evaluate_private_final checker task.public_test_cases task.function_name code per_test_ms
          ≡ true)
        ↔ IsFull (evaluate_public checker task code per_test_ms elapsed_ms))
      × IsTallied (evaluate_public checker task code per_test_ms elapsed_ms)
unfolding evaluate_public evaluate_private_final run_public run_final all_passed tally
evaluate_public_lem checker task code per_test_ms elapsed_ms =
    either_way (checker.compile_error code)
  where
    either_way :
        (found : Option String)
        → ((run_final checker task.public_test_cases task.function_name code per_test_ms found
              ≡ true)
            ↔ IsFull (run_public checker task code per_test_ms elapsed_ms found))
          × IsTallied (run_public checker task code per_test_ms elapsed_ms found)
    either_way (some text) = ((λ h. absurd cc, λ h. absurd (ground (arith, h.0))), omega arith)
    either_way none =
        let (results, metadata) =
          checker.check_correctness task.public_test_cases task.function_name code
            (checker_timeout per_test_ms) in
        let shown = length-visible_results metadata 0 results in
        (
          full_lem _ (length results) _ _ shown (tally-visible_results metadata 0 results).1,
          within _ _ shown (disjoint_counts metadata 0 results),
        )
