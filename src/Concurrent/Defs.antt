-- ===== src/Concurrent/Defs.antt =====
-- `ConcurrentBugCaptureHandler` of modules/runtime-learning-engine/concurrent-bug-capture.ts. A capture
-- runs from one `await` to the next in a step, and other captures may take steps between. The random
-- token is a number that the capture brings.
use frida_desktop.Prelude.{
  ℕ, zero, suc, ◌+◌, ◌-◌, ◌*◌, ◌/◌, String, Bool, true, false, ◌||◌, Option, none, some, List, [],
  ◌∷◌, ◌++◌, ltb, leb, ◌==◌, if◌then◌else◌, length, get_elem?, last?,
}
use frida_desktop.Prelude.Dict
use frida_desktop.Prelude.Dict.{Dict}
use frida_desktop.Floats.{Floats}

pub record Handler : Type 0 where
  pub active : Dict ℕ
  pub latencies : List ℕ
  pub lock_waits : List ℕ
  pub race_conditions : ℕ
  pub deadlocks : ℕ
  pub corruptions : ℕ
  pub lock_acquisitions : ℕ
  pub max_concurrent : ℕ

-- Where a call of `captureBugConcurrent` stands.
pub data Phase : Type 0 where
  called locking capturing rejected : Phase
  returned : ℕ → Phase

pub record Capture : Type 0 where
  pub bug_id : String
  pub token : ℕ
  pub delay : ℕ
  pub started : ℕ
  pub phase : Phase

-- `lockHeld`
unfoldable pub lock_held : String → Bool
lock_held id = false

-- The loop of `acquireLock` with so many tries left; false is the deadlock.
unfoldable pub acquire_lock : ℕ → String → Bool
unfolding lock_held
acquire_lock zero id = false
acquire_lock (suc n) id = let rest = acquire_lock n id in if lock_held id then rest else true

abbrev is_there : Option ℕ → Bool
is_there none = false
is_there (some t) = true

abbrev holds : ℕ → Option ℕ → Bool
holds token none = false
holds token (some t) = t == token

-- To the first `await`.
unfoldable pub begin : ℕ → Capture → Handler → Capture × Handler
unfolding acquire_lock
begin now c s =
    if is_there (Dict.get c.bug_id s.active)
    then (record c { phase = rejected }, record s { race_conditions = s.race_conditions + 1 })
    else if acquire_lock 100 c.bug_id
    then (record c { phase = locking; started = now }, s)
    else (record c { phase = rejected }, record s { deadlocks = s.deadlocks + 1 })

abbrev pub release : String → Handler → Handler
release id s = record s { active = Dict.delete id s.active }

-- The test of the token, and the `finally` clause.
unfoldable pub verify_capture : ℕ → Capture → Handler → Capture × Handler
verify_capture now c s =
    if holds c.token (Dict.get c.bug_id s.active)
    then (
      record c { phase = returned (now - c.started) },
      release c.bug_id (record s { latencies = s.latencies ++ (now - c.started) ∷ [] }),
    )
    else (
      record c { phase = rejected },
      release c.bug_id (record s { race_conditions = s.race_conditions + 1 }),
    )

abbrev pub with_token : Capture → Handler → Handler
with_token c s =
    let active = Dict.set c.bug_id c.token s.active in
    record s {
      active = active;
      max_concurrent =
          if ltb s.max_concurrent (length active) then length active else s.max_concurrent;
    }

-- The lock is there: the token is set, and the delay begins, if there is one.
unfoldable pub record_capture : ℕ → Capture → Handler → Capture × Handler
unfolding verify_capture
record_capture now c s =
    let s' = with_token c (record s {
      lock_waits = s.lock_waits ++ (now - c.started) ∷ [];
      lock_acquisitions = s.lock_acquisitions + 1;
    }) in
    if ltb 0 c.delay then (record c { phase = capturing }, s') else verify_capture now c s'

abbrev pub advance_from : Phase → ℕ → Capture → Handler → Capture × Handler
advance_from called now c s = begin now c s
advance_from locking now c s = record_capture now c s
advance_from capturing now c s = verify_capture now c s
advance_from rejected now c s = (c, s)
advance_from (returned n) now c s = (c, s)

-- The next step of a capture.
unfoldable pub advance : ℕ → Capture → Handler → Capture × Handler
unfolding begin record_capture verify_capture
advance now c s = advance_from c.phase now c s

unfoldable validate_data_integrity : Handler → Bool × Handler
validate_data_integrity s =
    if ltb 0 (length s.active)
    then (false, record s { corruptions = s.corruptions + 1 })
    else (true, s)

unfoldable pub reset : Handler → Handler
reset s = record {
  active = [];
  latencies = [];
  lock_waits = [];
  race_conditions = 0;
  deadlocks = 0;
  corruptions = 0;
  lock_acquisitions = 0;
  max_concurrent = 0;
}

pub data TestStatus : Type 0 where
  passed failed degraded : TestStatus

unfoldable pub status_of : Handler → TestStatus
status_of s =
    if ltb 0 s.race_conditions || ltb 0 s.deadlocks || ltb 0 s.corruptions
    then failed
    else if ltb 10 s.max_concurrent
    then degraded
    else passed

-- `sort((a, b) => a - b)`
unfoldable insert_latency : ℕ → List ℕ → List ℕ
insert_latency n [] = n ∷ []
insert_latency n (m ∷ ms) = if leb n m then n ∷ m ∷ ms else m ∷ insert_latency n ms

unfoldable sort_latencies : List ℕ → List ℕ
unfolding insert_latency
sort_latencies [] = []
sort_latencies (n ∷ ns) = insert_latency n (sort_latencies ns)

abbrev sum : List ℕ → ℕ
sum [] = 0
sum (n ∷ ns) = n + sum ns

abbrev given : Option ℕ → ℕ
given none = 0
given (some n) = n

pub record CaptureStats (N : Type 0) : Type 0 where
  pub total_bugs : ℕ
  pub concurrent_peaks : ℕ
  pub races_detected : ℕ
  pub deadlocks_detected : ℕ
  pub corruption_detected : ℕ
  pub min_ms : ℕ
  pub max_ms : ℕ
  pub avg_ms : N
  pub p95_ms : ℕ
  pub p99_ms : ℕ
  pub total_locks_acquired : ℕ
  pub max_wait_ms : ℕ
  pub avg_wait_ms : N
  pub status : TestStatus

module _ {N : Type 0} (f : Floats N) where
  abbrev mean : List ℕ → N
  mean [] = f.of_nat 0
  mean (n ∷ ns) = f.div (f.of_nat (sum (n ∷ ns))) (f.of_nat (length (n ∷ ns)))

  unfoldable get_stats : Handler → CaptureStats N
  unfolding status_of sort_latencies
  get_stats s =
      let sorted = sort_latencies s.latencies in
      let waits = sort_latencies s.lock_waits in
      record {
        total_bugs = length s.latencies;
        concurrent_peaks = s.max_concurrent;
        races_detected = s.race_conditions;
        deadlocks_detected = s.deadlocks;
        corruption_detected = s.corruptions;
        min_ms = given (get_elem? sorted 0);
        max_ms = given (last? sorted);
        avg_ms = mean sorted;
        p95_ms = given (get_elem? sorted (length sorted * 95 / 100));
        p99_ms = given (get_elem? sorted (length sorted * 99 / 100));
        total_locks_acquired = s.lock_acquisitions;
        max_wait_ms = given (last? waits);
        avg_wait_ms = mean waits;
        status = status_of s;
      }
