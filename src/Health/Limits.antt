-- ===== src/Health/Limits.antt =====
-- What the endpoint keeps over sequences of its recordings.
use frida_desktop.Prelude.{
  ℕ, ◌≤◌, String, str_eq, List, [], ◌∷◌, ◌++◌, All, length, length-append, length-drop, Bool-cases,
  inl, inr, arith,
}
use frida_desktop.Prelude.Dict.{Dict, get, set}
use frida_desktop.Health.Defs.{
  Endpoint, push_limited, record_latency, record_event, record_success, record_failure,
  list_or_empty,
}

-- At most so many under every key.
abbrev Within : ℕ → Dict (List ℕ) → Type 0
Within limit m = All (λ e. length e.1 ≤ limit) m

get-Within :
    (limit : ℕ) (k : String) (m : Dict (List ℕ))
    → Within limit m
    → length (list_or_empty (get k m)) ≤ limit
unfolding get
get-Within limit k [] h = omega arith
get-Within limit k ((j, xs) ∷ m) h = elim (Bool-cases (str_eq j k)) [
  | inl e ↦ simp e h.0
  | inr e ↦ simp e (get-Within limit k m h.1)
]

set-Within :
    (limit : ℕ) (k : String) (xs : List ℕ) (m : Dict (List ℕ))
    → length xs ≤ limit
    → Within limit m
    → Within limit (set k xs m)
unfolding set
set-Within limit k xs [] h all = (h, tt)
set-Within limit k xs ((j, ys) ∷ m) h all = elim (Bool-cases (str_eq j k)) [
  | inl e ↦ simp e (h, all.1)
  | inr e ↦ simp e (all.0, set-Within limit k xs m h all.1)
]

length-push_limited :
    (limit x : ℕ) (xs : List ℕ) → length xs ≤ limit → length (push_limited limit x xs) ≤ limit
unfolding push_limited
length-push_limited limit x xs h =
    ground (arith, length-append xs (x ∷ []), length-drop 1 (xs ++ x ∷ []))

-- At most 100 latencies and 1000 times of a kind, and no more successes than attempts.
pub record IsLimited (s : Endpoint) : Type 0 where
  pub latencies : Within 100 s.latencies
  pub recent : Within 1000 s.recent
  pub attempts : s.fixes_successful ≤ s.fixes_attempted

pub data Recording : Type 0 where
  latency event : String → ℕ → Recording
  success failure : Recording

unfoldable pub record_all : List Recording → Endpoint → Endpoint
record_all [] s = s
record_all (latency kind ms ∷ rs) s = record_all rs (record_latency kind ms s)
record_all (event kind now ∷ rs) s = record_all rs (record_event kind now s)
record_all (success ∷ rs) s = record_all rs (record_success s)
record_all (failure ∷ rs) s = record_all rs (record_failure s)

-- Through any recordings an endpoint that keeps at most 100 latencies and 1000 events of each kind
-- and counts no more successes than attempts stays such a one.
pub record_all-IsLimited :
    (rs : List Recording) (s : Endpoint) → IsLimited s → IsLimited (record_all rs s)
unfolding record_all record_latency record_event record_success record_failure
record_all-IsLimited [] s h = h
record_all-IsLimited (latency kind ms ∷ rs) s h =
    record_all-IsLimited rs (record_latency kind ms s) (record {
      latencies =
          set-Within 100 kind (push_limited 100 ms (list_or_empty (get kind s.latencies)))
            s.latencies
            (length-push_limited 100 ms (list_or_empty (get kind s.latencies))
              (get-Within 100 kind s.latencies h.latencies))
            h.latencies;
      recent = h.recent;
      attempts = h.attempts;
    })
record_all-IsLimited (event kind now ∷ rs) s h =
    record_all-IsLimited rs (record_event kind now s) (record {
      latencies = h.latencies;
      recent =
          set-Within 1000 kind (push_limited 1000 now (list_or_empty (get kind s.recent))) s.recent
            (length-push_limited 1000 now (list_or_empty (get kind s.recent))
              (get-Within 1000 kind s.recent h.recent))
            h.recent;
      attempts = h.attempts;
    })
record_all-IsLimited (success ∷ rs) s h =
    record_all-IsLimited rs (record_success s)
      (record { latencies = h.latencies; recent = h.recent; attempts = omega (arith, h.attempts) })
record_all-IsLimited (failure ∷ rs) s h =
    record_all-IsLimited rs (record_failure s)
      (record { latencies = h.latencies; recent = h.recent; attempts = omega (arith, h.attempts) })
