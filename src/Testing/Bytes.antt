-- ===== src/Testing/Bytes.antt =====
-- The check of memory access of test-suite.ts, and what it means for the fixes of index.ts.
use frida_desktop.Prelude.{
  ℕ, ◌<◌, String, ◌≡◌, refl, ap, ◌∙◌, Bool, true, false, ◌&&◌, some, ◌⊎◌, inl, inr, List, [], ◌∷◌,
  every, ◌==◌, Bool-cases, Option-cases, arith,
}
use frida_desktop.Types.{BugEvent, BugPattern, FixEvent, TestResult, TestState}
use frida_desktop.Patterns.Defs.{should_apply_fix}
use frida_desktop.Engine.Defs.{
  Env, Engine, test_passed, is_failed, settle_rollback, keep_pending, tests_failed,
  execute_rollback, undo_fix, trap, to_failsafe, after_fix, apply_fix_with_rollback, consider,
  consider_all, process_patterns, process_bug_event, capture_bug, mutation_blocked,
}
use frida_desktop.Testing.Defs.{
  Device, JavaByte, plus, minus, then_do, expect_byte, error_of, read_back, write_bytes,
  test_memory_access, regression_test, judge_checks, smoke_test, run_after_fix, passed, failed,
}

errs {ℓ} : {A : Type ℓ} → String ⊎ A → Bool
errs (inl e) = true
errs (inr x) = false

errs-then_do {ℓ} :
    {A B : Type ℓ} (r : String ⊎ A) (k : A → String ⊎ B)
    → ((x : A) → errs (k x) ≡ true)
    → errs (then_do r k) ≡ true
unfolding errs
errs-then_do (inl e) k h = refl
errs-then_do (inr x) k h = h x

test_passed-fail : (r : TestResult) → r.state ≡ TestState.fail → test_passed r ≡ false
test_passed-fail r h = ap {B = Bool} (λ st. elim st [ TestState.fail ↦ false | _ ↦ true ]) h

module _ {M : Type 0} (w : Device M) where
  -- A byte of Java is at most 127.
  abbrev pub Bytes : Type 0
  Bytes = (i : ℕ) (m : M) (n : ℕ) → w.get i m ≡ inr (plus n) → n < 128

  module _ (bytes : Bytes) where
    not_200 : (m : M) (b : JavaByte) → w.get 100 m ≡ inr b → errs (expect_byte w 100 200 b) ≡ true
    unfolding expect_byte errs
    not_200 m (minus n) h = refl
    not_200 m (plus n) h =
        let small = bytes 100 m n h in
        let other : (n == 200) ≡ false = ground (arith, small) in simp other refl

    last_read :
        (a b : JavaByte) (m : M) (r : String ⊎ JavaByte)
        → w.get 100 m ≡ r
        → errs (
            then_do r (λ c.
              then_do
                (expect_byte w 0 42 a)
                (λ x. then_do (expect_byte w 10 100 b) (λ y. expect_byte w 100 200 c))))
          ≡ true
    unfolding errs
    last_read a b m (inl e) h = refl
    last_read a b m (inr c) h =
        errs-then_do (expect_byte w 0 42 a) _
          (λ x. errs-then_do (expect_byte w 10 100 b) _ (λ y. not_200 m c h))

    memory_fails :
        (r : String ⊎ Bool)
        → errs r ≡ true
        → (e : String) × (error_of "Error: Memory access test failed: " r ≡ some e)
    unfolding errs
    memory_fails (inl e) h = (_, refl)
    memory_fails (inr x) h = ground (arith, h)

    -- Where Java's bytes are at most 127, the regression test fails: it writes 200 into a byte and
    -- expects to read 200.
    regression_test_fails : (regression_test w).state ≡ TestState.fail
    unfolding regression_test judge_checks failed test_memory_access
    regression_test_fails =
        let bad = errs-then_do (write_bytes w) (read_back w) (λ m.
          errs-then_do (w.get 0 m) _
            (λ a. errs-then_do (w.get 10 m) _ (λ b. last_read a b m (w.get 100 m) refl))) in
        let found = memory_fails (then_do (write_bytes w) (read_back w)) bad in simp found.1 refl

    never_passes : (e : FixEvent) → every test_passed (run_after_fix w e) ≡ false
    unfolding run_after_fix smoke_test passed failed
    never_passes e = elim (Option-cases w.exec_ended) [
      | inl p ↦
          simp (p, regression_test_fails)
            (ap (λ b. b && true) (test_passed-fail (regression_test w) regression_test_fails))
      | inr (m, p) ↦ simp p refl
    ]

module _ {N M : Type 0} (env : Env N M) where
  settle-fixes :
      (ok : Bool) (e : FixEvent) (s : Engine N M)
      → let r = settle_rollback env ok e s in
        (keep_pending env r.0 r.1 r.2).counters.fixes_applied ≡ s.counters.fixes_applied
  unfolding settle_rollback trap
  settle-fixes true e s = refl
  settle-fixes false e s = refl

  module _ {D : Type 0} (w : Device D) (bytes : Bytes w)
      (tests : (e : FixEvent) → env.run_tests e ≡ some (run_after_fix w e)) where
    after_fix-fixes :
        (e : FixEvent) (s : Engine N M)
        → (after_fix env e s).counters.fixes_applied ≡ s.counters.fixes_applied
    unfolding to_failsafe tests_failed execute_rollback
    after_fix-fixes e s = elim (Bool-cases (is_failed e.status)) [
      | inl p ↦ simp p refl
      | inr p ↦
          simp (p, tests e, never_passes w bytes e)
            (settle-fixes (undo_fix env e.fix_id s.devices).0 _ _)
    ]

    consider-fixes :
        (now : ℕ) (p : BugPattern N) (s : Engine N M)
        → (consider env now p s).counters.fixes_applied ≡ s.counters.fixes_applied
    unfolding consider to_failsafe apply_fix_with_rollback
    consider-fixes now p s = elim (Bool-cases (should_apply_fix env.floats env.detector p)) [
      | inl due ↦ elim (Bool-cases (mutation_blocked (env.safety p))) [
        | inl shut ↦ simp (due, shut) refl
        | inr free ↦ simp (due, free) (after_fix-fixes _ _)
      ]
      | inr idle ↦ simp idle refl
    ]

    consider_all-fixes :
        (now : ℕ) (ps : List (BugPattern N)) (s : Engine N M)
        → (consider_all env now ps s).counters.fixes_applied ≡ s.counters.fixes_applied
    unfolding consider_all
    consider_all-fixes now [] s = refl
    consider_all-fixes now (p ∷ ps) s =
        consider_all-fixes now ps (consider env now p s) ∙ consider-fixes now p s

    -- Where Java's bytes are at most 127 and the engine runs the program's test suite, capturing a
    -- bug never counts a fix as applied, on no engine and under no snapshot: no fix passes its tests.
    pub capture_bug_never_fixes :
        (now : ℕ) (e : BugEvent) (s : Engine N M)
        → (capture_bug env now e s).counters.fixes_applied ≡ s.counters.fixes_applied
    unfolding capture_bug process_bug_event process_patterns
    capture_bug_never_fixes now e s = elim (Bool-cases s.running) [
      | inl p ↦ simp p (consider_all-fixes now _ _)
      | inr p ↦ simp p refl
    ]
