-- ===== src/Testing/Defs.antt =====
-- `TestSuiteImpl` of modules/runtime-learning-engine/test-suite.ts. What the Java runtime answers is the
-- interface `Device`; a text on the left is the exception that is thrown.
use frida_desktop.Prelude.{
  ℕ, zero, suc, ◌+◌, String, str_append, includes, Bool, true, false, not, ◌&&◌, ◌||◌, Option, none,
  some, ◌⊎◌, inl, inr, List, [], ◌∷◌, ltb, ◌==◌, if◌then◌else◌,
}
use frida_desktop.Types.{TestResult, TestState, FixEvent}

-- A value of Java's type `byte`, by its sign.
pub data JavaByte : Type 0 where
  plus minus : ℕ → JavaByte

-- `executions` is how often the runnable ran in the time given, `classes` the error of finding the
-- two classes, `value_of_null` what `valueOf(null)` throws, `timing` the time of an iteration.
pub record Device (M : Type 0) : Type 0 where
  pub exec_ended : Option String
  pub allocate : String ⊎ M
  pub put : ℕ → ℕ → M → String ⊎ M
  pub get : ℕ → M → String ⊎ JavaByte
  pub executions : String ⊎ ℕ
  pub classes : Option String
  pub value_of_null : Option String
  pub timing : ℕ → String ⊎ ℕ
  pub duration : String → ℕ
  pub print : ℕ → String
  pub print_mean : ℕ → ℕ → String

abbrev print_byte : (ℕ → String) → JavaByte → String
print_byte print (plus n) = print n
print_byte print (minus n) = str_append "-" (print n)

abbrev is_byte : ℕ → JavaByte → Bool
is_byte n (plus m) = m == n
is_byte n (minus m) = false

abbrev pub then_do {ℓ} : {A B : Type ℓ} → String ⊎ A → (A → String ⊎ B) → String ⊎ B
then_do (inl e) k = inl e
then_do (inr x) k = k x

-- A check is none where it passes, and else the message of its error.
abbrev pub error_of {ℓ} : {A : Type ℓ} → String → String ⊎ A → Option String
error_of said (inl e) = some (str_append said e)
error_of said (inr x) = none

abbrev failures : List (Option String) → ℕ
failures [] = 0
failures (none ∷ cs) = failures cs
failures (some e ∷ cs) = suc (failures cs)

unfoldable pub passed : String → ℕ → TestResult
passed name ms = record {
  test_name = name;
  state = TestState.pass;
  duration_ms = ms;
  error_message = none;
}

unfoldable pub failed : String → ℕ → String → TestResult
failed name ms e = record {
  test_name = name;
  state = TestState.fail;
  duration_ms = ms;
  error_message = some e;
}

abbrev pub is_pass : TestState → Bool
is_pass TestState.pass = true
is_pass _ = false

module _ {M : Type 0} (w : Device M) where
  abbrev result_of : String → Option String → TestResult
  result_of name none = passed name (w.duration name)
  result_of name (some e) = failed name (w.duration name) e

  unfoldable pub smoke_test : TestResult
  unfolding passed failed
  smoke_test = result_of "smoke_test" w.exec_ended

  unfoldable pub expect_byte : ℕ → ℕ → JavaByte → String ⊎ Bool
  expect_byte index n b =
      if is_byte n b
      then inr true
      else inl (
          str_append "Error: Memory test failed at index " (
            str_append (w.print index) (
              str_append ": expected "
                (str_append (w.print n) (str_append ", got " (print_byte w.print b))))))

  -- The three reads and the three tests.
  unfoldable pub read_back : M → String ⊎ Bool
  unfolding expect_byte
  read_back m = then_do (w.get 0 m) (λ a. then_do (w.get 10 m) (λ b. then_do (w.get 100 m) (λ c.
      then_do (expect_byte 0 42 a)
        (λ x. then_do (expect_byte 10 100 b) (λ y. expect_byte 100 200 c)))))

  unfoldable pub write_bytes : String ⊎ M
  write_bytes =
      then_do w.allocate
        (λ m. then_do (w.put 0 42 m) (λ m1. then_do (w.put 10 100 m1) (λ m2. w.put 100 200 m2)))

  unfoldable pub test_memory_access : Option String
  unfolding read_back write_bytes
  test_memory_access = error_of "Error: Memory access test failed: " (then_do write_bytes read_back)

  abbrev enough_executions : ℕ → String ⊎ Bool
  enough_executions n =
      if ltb n 1
      then inl (
          str_append "Error: Thread execution test failed: expected threads to execute, got "
            (str_append (w.print n) " executions"))
      else inr true

  unfoldable pub test_thread_safety : Option String
  test_thread_safety =
      error_of "Error: Thread safety test failed: " (then_do w.executions enough_executions)

  -- The error where nothing is thrown is caught by the same `catch`.
  abbrev caught : Option String → String
  caught none = "Error: Null pointer test failed: expected NullPointerException was not thrown"
  caught (some e) = e

  unfoldable null_pointer_check : String → String ⊎ Bool
  null_pointer_check e =
      if includes "NullPointerException" e || includes "null" e || includes "TypeError" e
      then inr true
      else inl (str_append "Error: Null pointer test failed: wrong exception type: " e)

  abbrev with_classes : Option String → String ⊎ Bool
  with_classes none = null_pointer_check (caught w.value_of_null)
  with_classes (some e) = inl e

  unfoldable pub test_null_pointer_handling : Option String
  unfolding null_pointer_check
  test_null_pointer_handling =
      error_of "Error: Null pointer handling test failed: " (with_classes w.classes)

  -- `String(e)` of the error that `throwTestException` throws.
  abbrev thrown_text : String
  thrown_text = "Error: Test exception propagation"

  unfoldable pub test_exception_propagation : Option String
  test_exception_propagation =
      if not (includes "Test exception propagation" thrown_text)
      then some "Error: Exception propagation test failed: Error: Exception message lost"
      else if not (includes "Error" thrown_text) && not (includes "Exception" thrown_text)
      then some "Error: Exception propagation test failed: Error: Exception type information lost"
      else none

  -- By how many checks failed.
  unfoldable pub judge_checks : ℕ → TestResult
  unfolding passed failed
  judge_checks zero = passed "regression_test" (w.duration "regression_test")
  judge_checks (suc n) =
      failed "regression_test" (w.duration "regression_test")
        (str_append (w.print (suc n)) " regression checks failed")

  unfoldable pub regression_test : TestResult
  unfolding judge_checks test_memory_access test_thread_safety test_null_pointer_handling
  regression_test = judge_checks (
      failures (
        test_memory_access ∷ test_thread_safety ∷ test_null_pointer_handling
        ∷ test_exception_propagation ∷ []))

  -- The sum of so many timings, from the first on.
  unfoldable total_timing : ℕ → String ⊎ ℕ
  total_timing zero = inr 0
  total_timing (suc n) = then_do (total_timing n) (λ sum. then_do (w.timing n) (λ t. inr (sum + t)))

  -- The mean of a thousand timings is above 5 where their sum is above 5000.
  unfoldable judge_timing : String ⊎ ℕ → TestResult
  unfolding passed failed
  judge_timing (inl e) = failed "performance_test" (w.duration "performance_test") e
  judge_timing (inr sum) =
      if ltb 5000 sum
      then failed "performance_test" (w.duration "performance_test") (
          str_append "Average latency "
            (str_append (w.print_mean sum 1000) "ms exceeds threshold 5ms"))
      else passed "performance_test" (w.duration "performance_test")

  unfoldable pub performance_test : TestResult
  unfolding total_timing judge_timing
  performance_test = judge_timing (total_timing 1000)

  -- Each test answers, whatever is thrown in it, so that the `catch` is not reached.
  unfoldable pub run_after_fix : FixEvent → List TestResult
  run_after_fix e =
      if is_pass smoke_test.state
      then if is_pass regression_test.state
        then smoke_test ∷ regression_test ∷ performance_test ∷ []
        else smoke_test ∷ regression_test ∷ []
      else smoke_test ∷ []
