-- ===== src/Watchdog/Timeout.antt =====
-- The watchdog over sequences of its steps: when it trips, and what its log and counters keep.
use frida_desktop.Prelude.{
  ℕ, ◌+◌, ◌-◌, ◌≤◌, ◌<◌, ◌≡◌, inl, inr, refl, Bool, true, false, List, [], ◌∷◌, ◌++◌, arith, ltb,
  ltb→lt, length, Bool-cases, length-slice_last,
}
use frida_desktop.Types.{WatchdogEvent, WatchdogState, failsafe}
use frida_desktop.Watchdog.{
  Watchdog, EventFile, missing, unreadable, stored, max_events, push_event, file_with, record_event,
  start_watchdog, stop_watchdog, heartbeat, check_epoch_timeout, timeout_event, trip, set_state,
  increment_trap_count, set_rollback_callback,
}

-- A timer that fires, or a call of a method, at a time.
pub data Step : Type 0 where
  start stop beat check : ℕ → Step
  state : WatchdogState → Step
  trap bind : Step

unfoldable pub step : Step → Watchdog → Watchdog
unfolding start_watchdog stop_watchdog heartbeat check_epoch_timeout set_state increment_trap_count
    set_rollback_callback
step (start now) s = start_watchdog now s
step (stop now) s = stop_watchdog s
step (beat now) s = heartbeat now s
step (check now) s = (check_epoch_timeout now s).0
step (state w) s = set_state w s
step trap s = increment_trap_count s
step bind s = set_rollback_callback s

unfoldable pub run : List Step → Watchdog → Watchdog
run [] s = s
run (x ∷ xs) s = run xs (step x s)

abbrev pub FitsFile : EventFile → Type 0
FitsFile (stored es) = length es ≤ max_events
FitsFile _ = Unit

length-push_event :
    (e : WatchdogEvent) (es : List WatchdogEvent) → length (push_event e es) ≤ max_events
unfolding push_event
length-push_event e es = ground (arith, length-slice_last max_events (es ++ e ∷ []))

file_with-FitsFile : (e : WatchdogEvent) (f : EventFile) → FitsFile f → FitsFile (file_with e f)
unfolding file_with
file_with-FitsFile e missing h = length-push_event e []
file_with-FitsFile e unreadable h = tt
file_with-FitsFile e (stored es) h = length-push_event e es

-- What holds of a watchdog between two steps: the timers run exactly while it monitors, and the
-- log is within its bound.
pub record Inv (s : Watchdog) : Type 0 where
  pub beats : s.heartbeat_timer ≡ s.monitoring
  pub checks : s.epoch_timer ≡ s.monitoring
  pub fits : FitsFile s.file

record_event-Inv : (e : WatchdogEvent) (s : Watchdog) → Inv s → Inv (record_event e s)
unfolding record_event
record_event-Inv e s h = elim (Bool-cases s.disk_ok) [
  | inl ok ↦
      simp ok
        (record { beats = h.beats; checks = h.checks; fits = file_with-FitsFile e s.file h.fits })
  | inr bad ↦ simp bad h
]

-- A check does nothing, or trips.
check_cases :
    (now : ℕ) (s : Watchdog) (P : Watchdog × Bool → Type 0)
    → P (s, false)
    → (s.monitoring ≡ true → s.epoch_timeout < now - s.last_heartbeat_time → P (trip now s))
    → P (check_epoch_timeout now s)
unfolding check_epoch_timeout
check_cases now s P quiet tripped = elim (Bool-cases s.monitoring) [
  | inl on ↦ elim (Bool-cases (ltb s.epoch_timeout (now - s.last_heartbeat_time))) [
    | inl late ↦ simp (on, late) (tripped on (ltb→lt _ _ late))
    | inr early ↦ simp (on, early) quiet
  ]
  | inr off ↦ simp off quiet
]

trip-Inv : (now : ℕ) (s : Watchdog) → Inv s → Inv (trip now s).0
unfolding trip
trip-Inv now s h =
    let tripped = record s { current_state = failsafe; trap_count = s.trap_count + 1 } in
    let logged : Inv (record_event (timeout_event now tripped) tripped) =
      record_event-Inv (timeout_event now tripped) tripped
        (record { beats = h.beats; checks = h.checks; fits = h.fits }) in
    record { beats = logged.beats; checks = logged.checks; fits = logged.fits }

step-Inv : (x : Step) (s : Watchdog) → Inv s → Inv (step x s)
unfolding step
step-Inv (start now) s h = elim (Bool-cases s.monitoring) [
  | inl on ↦ simp on h
  | inr off ↦ simp off (record { beats = refl; checks = refl; fits = h.fits })
]
step-Inv (stop now) s h = elim (Bool-cases s.monitoring) [
  | inl on ↦ simp on (record { beats = refl; checks = refl; fits = h.fits })
  | inr off ↦ simp off h
]
step-Inv (beat now) s h =
    record_event-Inv _ _ (record { beats = h.beats; checks = h.checks; fits = h.fits })
step-Inv (check now) s h = check_cases now s (λ r. Inv r.0) h (λ on late. trip-Inv now s h)
step-Inv (state w) s h = record { beats = h.beats; checks = h.checks; fits = h.fits }
step-Inv trap s h = record { beats = h.beats; checks = h.checks; fits = h.fits }
step-Inv bind s h = record { beats = h.beats; checks = h.checks; fits = h.fits }

-- Through any sequence of calls and timer events a watchdog's two timers run exactly while it
-- monitors, and its event file, if it had at most 1000 events, has at most 1000.
run-Inv : (xs : List Step) (s : Watchdog) → Inv s → Inv (run xs s)
unfolding run
run-Inv [] s h = h
run-Inv (x ∷ xs) s h = run-Inv xs (step x s) (step-Inv x s h)

late_trips :
    (now : ℕ) (s : Watchdog)
    → s.monitoring ≡ true
    → s.epoch_timeout < now - s.last_heartbeat_time
    → check_epoch_timeout now s ≡ trip now s
unfolding check_epoch_timeout
late_trips now s on late =
    let late' : ltb s.epoch_timeout (now - s.last_heartbeat_time) ≡ true = ground arith in
    simp (on, late')

record IsTripped (now : ℕ) (s : Watchdog) (r : Watchdog × Bool) : Type 0 where
  called : r.1 ≡ s.rollback_callback
  state_set : r.0.current_state ≡ failsafe
  trap_counted : r.0.trap_count ≡ s.trap_count + 1
  epoch_counted : r.0.current_epoch ≡ s.current_epoch + 1
  beat_at : r.0.last_heartbeat_time ≡ now
  timeout_kept : r.0.epoch_timeout ≡ s.epoch_timeout

trip_lem : (now : ℕ) (s : Watchdog) → IsTripped now s (trip now s)
unfolding trip record_event
trip_lem now s = ground arith

-- While the watchdog monitors, a check trips once the last heartbeat is older than the timeout: the callback is called if there is one, the state is FAILSAFE, and the traps and
-- the epochs are one more; any later check up to the timeout, with no step between, does nothing.
pub check_epoch_timeout_trips :
    (now later : ℕ) (s : Watchdog)
    → s.monitoring ≡ true
    → s.epoch_timeout < now - s.last_heartbeat_time
    → later ≤ now + s.epoch_timeout
    → let (s', called) = check_epoch_timeout now s in
      (called ≡ s.rollback_callback)
      × (s'.current_state ≡ failsafe)
      × (s'.trap_count ≡ s.trap_count + 1)
      × (s'.current_epoch ≡ s.current_epoch + 1)
      × (check_epoch_timeout later s' ≡ (s', false))
check_epoch_timeout_trips now later s on late soon = rw (late_trips now s on late) (
  (trip_lem now s).called,
  (trip_lem now s).state_set,
  (trip_lem now s).trap_counted,
  (trip_lem now s).epoch_counted,
  check_cases later (trip now s).0 (λ r. r ≡ ((trip now s).0, false)) refl
      (λ _ again. absurd (omega (arith, trip_lem now s))),
)

abbrev NoState : List Step → Type 0
NoState [] = Unit
NoState (state w ∷ xs) = ⊥
NoState (_ ∷ xs) = NoState xs

step_failsafe :
    (x : Step) (s : Watchdog)
    → NoState (x ∷ [])
    → s.current_state ≡ failsafe
    → (step x s).current_state ≡ failsafe
unfolding step record_event trip
step_failsafe (state w) s free h = absurd free
step_failsafe (start now) s free h = ground arith
step_failsafe (stop now) s free h = ground arith
step_failsafe (beat now) s free h = ground arith
step_failsafe (check now) s free h = ground arith
step_failsafe trap s free h = h
step_failsafe bind s free h = h

-- A watchdog in FAILSAFE stays there until the state is set: neither heartbeats nor stopping and
-- starting it again lead out.
run_failsafe :
    (xs : List Step) (s : Watchdog)
    → NoState xs
    → s.current_state ≡ failsafe
    → (run xs s).current_state ≡ failsafe
unfolding run
run_failsafe [] s free h = h
run_failsafe (state w ∷ xs) s free h = absurd free
run_failsafe (start now ∷ xs) s free h = run_failsafe xs _ free (step_failsafe (start now) s tt h)
run_failsafe (stop now ∷ xs) s free h = run_failsafe xs _ free (step_failsafe (stop now) s tt h)
run_failsafe (beat now ∷ xs) s free h = run_failsafe xs _ free (step_failsafe (beat now) s tt h)
run_failsafe (check now ∷ xs) s free h = run_failsafe xs _ free (step_failsafe (check now) s tt h)
run_failsafe (trap ∷ xs) s free h = run_failsafe xs _ free (step_failsafe trap s tt h)
run_failsafe (bind ∷ xs) s free h = run_failsafe xs _ free (step_failsafe bind s tt h)
