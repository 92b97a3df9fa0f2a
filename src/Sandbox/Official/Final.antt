-- ===== src/Sandbox/Official/Final.antt =====
-- src/orchestra/sandbox/lcb_official.py: when the final evaluation passes.
use codename_madagascar.Prelude.Integers.{is_zero, pos, negsuc}
use codename_madagascar.Prelude.{
  ℕ, ◌<◌, ◌++◌, [], ◌∷◌, map, all, ap, String, Bool, All, true, false, ◌&&◌, Option, none, some,
  List, length, ok, ◌≡◌, ◌↔◌, arith,
}
use codename_madagascar.Executors.Models.{PublicExample}
use codename_madagascar.Adapters.Tasks.{PrivateTaskData, PrivateTestCase}
use codename_madagascar.Sandbox.Worker.{
  Checker, Verdict, flag, number, has_passed, all_passed, checker_timeout, run_final,
  evaluate_private_final,
}
use codename_madagascar.Sandbox.Official.{
  Runner, Machine, Ending, late, exited, answer, private_final, final_tests, final_request,
  wall_timeout, evaluate_final,
}

-- The process ended within its bound, with code 0 and a result file.
abbrev pub has_ended_well : Ending → Bool
has_ended_well late = false
has_ended_well (exited returncode has_result) = is_zero returncode && has_result

-- The public tests, then the private ones, each with its three fields.
abbrev pub hidden_tests : PrivateTaskData → List PublicExample
hidden_tests hidden =
    hidden.public_tests
    ++ map
        (λ (test : PrivateTestCase). record {
          input = test.input;
          output = test.output;
          testtype = test.testtype;
        })
        hidden.private_tests

-- The verdict is True, or the number 1.
abbrev pub IsAccepted : Verdict → Type 0
IsAccepted (flag b) = b ≡ true
IsAccepted (number n) = n ≡ pos 1

-- There is a verdict, and every verdict accepts the code.
abbrev pub IsAllAccepted : List Verdict → Type 0
IsAllAccepted verdicts = (0 < length verdicts) × All IsAccepted verdicts

-- On the public and the private tests together the worker ended well, the code compiles, and the
-- checker gives verdicts, all of which accept it.
unfoldable pub HasPassed : Machine → Runner → String → PrivateTaskData → String → ℕ → Type 0
HasPassed machine runner question_id hidden code per_test_ms =
    let tests = hidden_tests hidden in
    let request = private_final (record {
      question_id = question_id;
      test_cases = tests;
      function_name = hidden.function_name;
      code = code;
      per_test_timeout_ms = per_test_ms;
    }) in
    (has_ended_well (machine.ending request (wall_timeout runner per_test_ms (length tests)))
      ≡ true)
    × (machine.checker.compile_error code ≡ none)
    × IsAllAccepted
        (machine.checker.check_correctness tests hidden.function_name code
          (checker_timeout per_test_ms)).0

pos-injective : {m n : ℕ} → pos m ≡ pos n → m ≡ n
pos-injective h = cc

all-IsAccepted :
    (verdicts : List Verdict) → (all has_passed verdicts ≡ true) ↔ All IsAccepted verdicts
all-IsAccepted [] = ground arith
all-IsAccepted (flag b ∷ verdicts) = ground (arith, all-IsAccepted verdicts)
all-IsAccepted (number (pos n) ∷ verdicts) = (
  λ h. (ap pos (ground arith), (all-IsAccepted verdicts).0 (ground arith)),
  λ h. let one : n ≡ 1 = pos-injective h.0 in ground (arith, (all-IsAccepted verdicts).1 h.1),
)
all-IsAccepted (number (negsuc n) ∷ verdicts) = (λ h. absurd (ground arith), λ h. absurd (cc))

all_passed-IsAllAccepted :
    (verdicts : List Verdict) → (all_passed verdicts ≡ true) ↔ IsAllAccepted verdicts
unfolding all_passed
all_passed-IsAllAccepted verdicts = ground (arith, all-IsAccepted verdicts)

answer-true :
    (ending : Ending) (written : Bool)
    → (answer ending false written ≡ ok true) ↔ ((has_ended_well ending ≡ true) × (written ≡ true))
answer-true late written = ground arith
answer-true (exited returncode has_result) written = ground arith

run_final-true :
    (checker : Checker) (tests : List PublicExample) (function_name : Option String) (code : String)
    (per_test_ms : ℕ) (error : Option String)
    → (run_final checker tests function_name code per_test_ms error ≡ true) ↔ (
        (error ≡ none)
        × IsAllAccepted
            (checker.check_correctness tests function_name code (checker_timeout per_test_ms)).0)
unfolding run_final
run_final-true checker tests function_name code per_test_ms none = ground (
  arith,
  all_passed-IsAllAccepted
      (checker.check_correctness tests function_name code (checker_timeout per_test_ms)).0,
)
run_final-true checker tests function_name code per_test_ms (some text) = ground arith

-- The final evaluation passes exactly where the worker ends well, the code compiles, and the
-- checker gives verdicts on the public and private tests of the task, all of them True or 1.
pub evaluate_final_lem :
    (machine : Machine) (runner : Runner) (question_id : String) (hidden : PrivateTaskData)
    (code : String) (per_test_ms : ℕ)
    → (evaluate_final machine runner question_id hidden code per_test_ms ≡ ok true)
      ↔ HasPassed machine runner question_id hidden code per_test_ms
unfolding evaluate_final evaluate_private_final HasPassed
evaluate_final_lem machine runner question_id hidden code per_test_ms =
    let tests = final_tests hidden in
    let request = private_final (final_request question_id hidden code per_test_ms) in
    let worker =
      run_final-true machine.checker tests hidden.function_name code per_test_ms
        (machine.checker.compile_error code) in
    let ended =
      answer-true (machine.ending request (wall_timeout runner per_test_ms (length tests))) (
        run_final machine.checker tests hidden.function_name code per_test_ms
          (machine.checker.compile_error code)) in
    (
      λ h. let (well, result) = ended.0 h in (well, (worker.0 result).0, (worker.0 result).1),
      λ h. ended.1 (h.0, worker.1 (h.1, h.2)),
    )
