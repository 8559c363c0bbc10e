-- ===== src/Health/Status.antt =====
-- When the health is critical, and what a closed gate does to it.
use mathlib.Core.Bool.{false≢true}
use native.Mathlib.Nat.{le-div_iff_mul-le}
use frida_desktop.Prelude.{
  ◌*◌, ◌/◌, ◌≤◌, ◌<◌, ◌⊎◌, Option, some, none, List, [], ◌∷◌, length, ◌&&◌, ℕ, ◌+◌, ◌≡◌, refl, sym,
  ◌∙◌, ap, Bool, true, false, ◌||◌, ◌↔◌, ltb, if◌then◌else◌, arith, Bool-cases, inl, inr,
}
use frida_desktop.Prelude.Dict
use frida_desktop.Floats.{Floats}
use frida_desktop.Types.{WatchdogState, stable, observe, dump, failsafe}
use frida_desktop.Health.Defs.{
  Surroundings, Endpoint, EngineStats, HealthStatus, critical, healthy, degraded, status_of,
  count_criticals, count_warnings, get_health_status, get_average_latency, rate_below, exceeds,
  get_memory_observation, calculate_storage_usage, is_failsafe, one_if, list_or_empty, sum, mean,
  total_size, success_rate, from_target, from_host, rounded, storage_of,
}

is_critical : HealthStatus → Bool
is_critical critical = true
is_critical _ = false

positive :
    (a b c d e : Bool)
    → ltb 0 (one_if a + one_if b + one_if c + one_if d + one_if e) ≡ (a || b || c || d || e)
positive true b c d e = ground arith
positive false true c d e = ground arith
positive false false true d e = ground arith
positive false false false true e = ground arith
positive false false false false true = refl
positive false false false false false = refl

status_of-critical : (m n : ℕ) → is_critical (status_of m n) ≡ ltb 0 m
unfolding is_critical status_of
status_of-critical m n = elim (Bool-cases (ltb 0 m)) [
  | inl e ↦ simp e refl
  | inr e ↦ simp e (calm (ltb 0 n))
]
  where
    calm : (b : Bool) → is_critical (if b then degraded else healthy) ≡ false
    calm true = refl
    calm false = refl

only_critical : (h : HealthStatus) → is_critical h ≡ true → h ≡ critical
unfolding is_critical
only_critical critical e = refl
only_critical degraded e = ground (arith, e)
only_critical healthy e = ground (arith, e)

failsafe_iff : (x : WatchdogState) → (is_failsafe x ≡ true) ↔ (x ≡ failsafe)
failsafe_iff stable = (λ h. absurd (false≢true h), λ h. ap is_failsafe h)
failsafe_iff observe = (λ h. absurd (false≢true h), λ h. ap is_failsafe h)
failsafe_iff dump = (λ h. absurd (false≢true h), λ h. ap is_failsafe h)
failsafe_iff failsafe = (λ h. refl, λ h. refl)

or_iff : {P Q : Type 0} (a b : Bool) → (a ≡ true) ↔ P → (b ≡ true) ↔ Q → ((a || b) ≡ true) ↔ (P ⊎ Q)
or_iff true b p q = (λ h. inl (p.0 refl), λ h. refl)
or_iff false b p q =
    (λ h. inr (q.0 h), λ h. elim h [ inl x ↦ absurd (false≢true (p.1 x)) | inr y ↦ q.1 y ])

five_or :
    {P Q R S T : Type 0} (a b c d e : Bool)
    → (a ≡ true) ↔ P
    → (b ≡ true) ↔ Q
    → (c ≡ true) ↔ R
    → (d ≡ true) ↔ S
    → (e ≡ true) ↔ T
    → ((a || b || c || d || e) ≡ true) ↔ ((((P ⊎ Q) ⊎ R) ⊎ S) ⊎ T)
five_or a b c d e p q r s t =
    or_iff (a || b || c || d) e (or_iff (a || b || c) d (or_iff (a || b) c (or_iff a b p q) r) s) t

-- The mean of the latencies is at least 100.5 ms, so that it is rounded to more than 100.
abbrev pub IsSlow : List ℕ → Type 0
IsSlow ls = (0 < length ls) × (201 * length ls ≤ 2 * sum ls)

mean-IsSlow : (ls : List ℕ) → (ltb 100 (mean ls) ≡ true) ↔ IsSlow ls
mean-IsSlow [] = ((λ h. ground (arith, h)), (λ h. ground (arith, h)))
mean-IsSlow (x ∷ xs) =
    let n = length (x ∷ xs) in
    let total = sum (x ∷ xs) in
    let some_n : 0 < n * 2 = omega arith in
    let divided = le-div_iff_mul-le {k = n * 2} {x = 101} {y = total * 2 + n} some_n in
    (
      (λ h.
          let above : 101 ≤ (total * 2 + n) / (n * 2) = ground (arith, h) in
          omega (arith, divided.0 above)),
      (λ h. let above = divided.1 (omega (arith, h)) in ground (arith, above)),
    )

module _ {N : Type 0} (f : Floats N) (w : Surroundings N) where
  -- Fixes were attempted, and the percentage that succeeded is rounded to less than 80.
  abbrev pub FailsOften : Endpoint → Type 0
  FailsOften s =
      (0 < s.fixes_attempted)
      × (f.lt
            (w.round (
              f.mul (f.div (f.of_nat s.fixes_successful) (f.of_nat s.fixes_attempted))
                (f.of_nat 100)))
            (f.of_nat 80)
          ≡ true)

  -- The provider answers a number of megabytes that is rounded to hundredths above 300.
  abbrev pub UsesMemory : Option N → Type 0
  UsesMemory none = ⊥
  UsesMemory (some x) =
      (w.finite x ≡ true)
      × (f.le (f.of_nat 0) x ≡ true)
      × (f.lt (f.of_nat 300) (f.div (w.round (f.mul x (f.of_nat 100))) (f.of_nat 100)) ≡ true)

  -- The sizes of the files are known, and are rounded to hundredths of a megabyte above 900.
  abbrev pub UsesStorage : Option (List (Option ℕ)) → Type 0
  UsesStorage none = ⊥
  UsesStorage (some sizes) =
      f.lt (f.of_nat 900) (
        f.div
          (w.round (
            f.mul (f.div (f.div (f.of_nat (total_size sizes)) (f.of_nat 1024)) (f.of_nat 1024))
              (f.of_nat 100)))
          (f.of_nat 100))
      ≡ true

  rate_below-FailsOften : (s : Endpoint) → (rate_below f w 80 s ≡ true) ↔ FailsOften s
  unfolding success_rate
  rate_below-FailsOften s = (ground arith, ground arith)

  from_host-exceeds :
      (limit : ℕ) (o : Option N) → exceeds f w limit (from_host f w o).target_mb ≡ false
  from_host-exceeds limit none = refl
  from_host-exceeds limit (some x) = refl

  exceeds-UsesMemory :
      (o : Option N) → (exceeds f w 300 (from_target f w o).target_mb ≡ true) ↔ UsesMemory o
  exceeds-UsesMemory none =
      (λ h. false≢true (sym (from_host-exceeds 300 (rounded f w w.host)) ∙ h), λ h. absurd h)
  exceeds-UsesMemory (some x) = elim (Bool-cases (w.finite x && f.le (f.of_nat 0) x)) [
    | inl e ↦ simp e (λ h. (ground (arith, e), ground (arith, e), h), λ h. h.2)
    | inr e ↦ simp e (
      λ h. absurd (false≢true (sym (from_host-exceeds 300 (rounded f w w.host)) ∙ h)),
      λ h. absurd (ground (arith, e, h)),
    )
  ]

  storage_of-UsesStorage :
      (o : Option (List (Option ℕ)))
      → f.lt (f.of_nat 900) (f.of_nat 0) ≡ false
      → (f.lt (f.of_nat 900) (storage_of f w o) ≡ true) ↔ UsesStorage o
  storage_of-UsesStorage none unused = (λ h. ground (arith, h, unused), λ h. absurd h)
  storage_of-UsesStorage (some sizes) unused = (λ h. h, λ h. h)

  -- The health is critical exactly where the mean of the kept latencies of captures is at least
  -- 100.5 ms, fixes were attempted and the percentage that succeeded is rounded to less than 80, the
  -- provider answers a number of megabytes that is rounded to hundredths above 300, the sizes of the
  -- files are known and rounded to hundredths of a megabyte above 900, or the watchdog is in FAILSAFE.
  pub get_health_status-critical :
      (now : ℕ) (e : EngineStats) (s : Endpoint)
      → f.lt (f.of_nat 900) (f.of_nat 0) ≡ false
      → ((get_health_status f w now e s).status ≡ critical) ↔ (
          (((IsSlow (list_or_empty (Dict.get "bug_capture" s.latencies)) ⊎ FailsOften s)
              ⊎ UsesMemory w.target)
            ⊎ UsesStorage w.sizes)
          ⊎ (e.watchdog_state ≡ failsafe))
  unfolding get_health_status count_criticals is_critical get_average_latency get_memory_observation
      calculate_storage_usage
  get_health_status-critical now e s unused =
      let kept = list_or_empty (Dict.get "bug_capture" s.latencies) in
      let slow = mean-IsSlow kept in
      let fails = rate_below-FailsOften s in
      let memory = exceeds-UsesMemory w.target in
      let storage = storage_of-UsesStorage w.sizes unused in
      let same =
        status_of-critical (count_criticals f w now e s) (count_warnings f w now e s)
        ∙ positive (ltb 100 (mean kept)) (rate_below f w 80 s)
            (exceeds f w 300 (from_target f w w.target).target_mb)
            (f.lt (f.of_nat 900) (storage_of f w w.sizes)) (is_failsafe e.watchdog_state) in
      let any_of =
        five_or (ltb 100 (mean kept)) (rate_below f w 80 s)
          (exceeds f w 300 (from_target f w w.target).target_mb)
          (f.lt (f.of_nat 900) (storage_of f w w.sizes)) (is_failsafe e.watchdog_state) slow fails
          memory storage (failsafe_iff e.watchdog_state) in
      (
        (λ h. any_of.0 (sym same ∙ ap is_critical h)),
        (λ h. only_critical (get_health_status f w now e s).status (same ∙ any_of.1 h)),
      )
