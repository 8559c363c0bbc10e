-- ===== src/Examples/Captures.antt =====
-- Captures of two bugs.
use frida_desktop.Prelude.{◌≡◌, ◌+◌, refl, true, false, none, [], ◌∷◌}
use frida_desktop.Prelude.Dict
use frida_desktop.Concurrent.Defs.{Handler, returned}
use frida_desktop.Concurrent.Apart.{new_capture, interleaved, interleaved_completes}
use frida_desktop.Concurrent.Race.{raced, IsLost, raced-IsLost}

abbrev idle : Handler
idle = record {
  active = [];
  latencies = [];
  lock_waits = [];
  race_conditions = 0;
  deadlocks = 0;
  corruptions = 0;
  lock_acquisitions = 0;
  max_concurrent = 0;
}

nothing_active : Dict.get "a" idle.active ≡ none
unfolding Dict.get
nothing_active = refl

interleaved_completes_example :
    let r =
      interleaved 5
        ((6, new_capture "b" 2 9) ∷ [])
        7
        ((8, new_capture "c" 3 9) ∷ [])
        20
        (new_capture "a" 1 9)
        idle in
    (r.0.phase ≡ returned 15) × (Dict.get "a" r.1.active ≡ none)
interleaved_completes_example =
    interleaved_completes "a" 1 9 5 7 20 ((6, new_capture "b" 2 9) ∷ [])
      ((8, new_capture "c" 3 9) ∷ []) idle nothing_active (refl, tt) (refl, tt)

-- Delays of 100 and 1: the second one verifies first, and returns.
raced-IsLost_example :
    IsLost true 3 idle
      (raced false true (λ i. i + 2) (new_capture "a" 1 100) (new_capture "a" 2 1) idle)
raced-IsLost_example =
    raced-IsLost false true (λ i. i + 2) "a" 1 2 100 1 idle nothing_active refl refl refl
