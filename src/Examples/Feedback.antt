-- ===== src/Examples/Feedback.antt =====
-- Two attempts to fix one pattern.
use frida_desktop.Prelude.{ℕ, ◌≡◌, Bool, true, false, none, List, [], ◌∷◌}
use frida_desktop.Feedback.Defs.{
  FixMetrics, new_feedback_collector, absent, get_pattern_metrics,
  calculate_success_rate_for_pattern,
}
use frida_desktop.Feedback.Rates.{run, shown, feedback_run-rate}
use frida_desktop.Examples.Data.{hundredths}

abbrev attempt : Bool → FixMetrics ℕ
attempt ok = record {
  pattern_id = "p";
  fix_id = "f";
  applied_at = 0;
  success = true;
  test_passed = ok;
  rolled_back = false;
  duration_ms = 400;
  performance_impact = 0;
  regression_detected = false;
  error = none;
}

abbrev attempts : List (ℕ × FixMetrics ℕ)
attempts = (1, attempt true) ∷ (2, attempt false) ∷ []

feedback_run-rate_example :
    let s = run hundredths attempts (new_feedback_collector true absent) in
    shown hundredths (get_pattern_metrics "p" s)
    ≡ calculate_success_rate_for_pattern hundredths "p" s
feedback_run-rate_example = feedback_run-rate hundredths attempts true "p"
