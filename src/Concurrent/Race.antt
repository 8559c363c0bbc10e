-- ===== src/Concurrent/Race.antt =====
-- Two captures of the same bug, concurrent-bug-capture.ts.
use frida_desktop.Prelude.{
  Bool, not, ==_iff, if◌then◌else◌, ℕ, ◌+◌, ◌-◌, ◌++◌, some, String, eq_refl, ◌≡◌, refl, true,
  false, none, [], ◌∷◌, ltb, ◌==◌, arith,
}
use frida_desktop.Prelude.Dict.{get, set, get-set, get-delete}
use frida_desktop.Concurrent.Defs.{
  Handler, Capture, locking, capturing, rejected, returned, advance, begin, acquire_lock, lock_held,
  record_capture, verify_capture, with_token, release,
}
use frida_desktop.Concurrent.Apart.{new_capture}

abbrev noted : ℕ → Capture → Handler → Handler
noted now c s = with_token c (record s {
  lock_waits = s.lock_waits ++ (now - c.started) ∷ [];
  lock_acquisitions = s.lock_acquisitions + 1;
})

abbrev lost : String → Handler → Handler
lost id s = release id (record s { race_conditions = s.race_conditions + 1 })

begin_free :
    (now : ℕ) (c : Capture) (s : Handler)
    → get c.bug_id s.active ≡ none
    → begin now c s ≡ (record c { phase = locking; started = now }, s)
unfolding begin acquire_lock lock_held
begin_free now c s h = simp h refl

record_delayed :
    (now : ℕ) (c : Capture) (s : Handler)
    → ltb 0 c.delay ≡ true
    → record_capture now c s ≡ (record c { phase = capturing }, noted now c s)
unfolding record_capture
record_delayed now c s h = simp h refl

verify_replaced :
    (now t : ℕ) (c : Capture) (s : Handler)
    → get c.bug_id s.active ≡ some t
    → (t == c.token) ≡ false
    → verify_capture now c s ≡ (record c { phase = rejected }, lost c.bug_id s)
unfolding verify_capture
verify_replaced now t c s h k = simp (h, k) refl

verify_gone :
    (now : ℕ) (c : Capture) (s : Handler)
    → get c.bug_id s.active ≡ none
    → verify_capture now c s ≡ (record c { phase = rejected }, lost c.bug_id s)
unfolding verify_capture
verify_gone now c s h = simp h refl

-- A step of each capture, the second one's first where `swapped`.
unfoldable pub both : Bool → ℕ → ℕ → Capture → Capture → Handler → Capture × Capture × Handler
unfolding advance
both false t u a b s = let (a', s1) = advance t a s in let (b', s2) = advance u b s1 in (a', b', s2)
both true t u a b s = let (b', s1) = advance t b s in let (a', s2) = advance u a s1 in (a', b', s2)

-- Both begin before either has its lock, in either order; the first one has its lock first; and
-- both finish after both had it, the second one first where `second_first`. The step i is at the
-- time `at i`.
unfoldable pub raced :
    Bool → Bool → (ℕ → ℕ) → Capture → Capture → Handler → Capture × Capture × Handler
raced swapped second_first at a b s =
    let (a1, b1, s1) = both swapped (at 0) (at 1) a b s in
    let (a2, b2, s2) = both false (at 2) (at 3) a1 b1 s1 in both second_first (at 4) (at 5) a2 b2 s2

verify_held :
    (now : ℕ) (c : Capture) (s : Handler)
    → get c.bug_id s.active ≡ some c.token
    → verify_capture now c s ≡ (
      record c { phase = returned (now - c.started) },
      release c.bug_id (record s { latencies = s.latencies ++ (now - c.started) ∷ [] }),
    )
unfolding verify_capture
verify_held now c s h = simp (h, (==_iff c.token c.token).1 refl) refl

-- The time at which the second one begins.
abbrev pub begun : Bool → (ℕ → ℕ) → ℕ
begun false at = at 1
begun true at = at 0

-- The first one is rejected; the second one returns, with its latency noted, where it verifies
-- first, and is rejected otherwise.
pub record IsLost (second_first : Bool) (latency : ℕ) (s : Handler)
    (r : Capture × Capture × Handler) : Type 0 where
  pub first : r.0.phase ≡ rejected
  pub second : r.1.phase ≡ (if second_first then returned latency else rejected)
  pub races :
      r.2.race_conditions ≡ (if second_first then s.race_conditions + 1 else s.race_conditions + 2)
  pub noted : r.2.latencies ≡ (if second_first then s.latencies ++ latency ∷ [] else s.latencies)

module _ (id : String) (p q d e : ℕ) (apart : (q == p) ≡ false) (hd : ltb 0 d ≡ true)
    (he : ltb 0 e ≡ true) (s : Handler) where
  -- A capture that waits for its lock, begun at this time.
  abbrev waiting : ℕ → ℕ → ℕ → Capture
  waiting token delay t = record (new_capture id token delay) { started = t; phase = locking }

  abbrev locked : ℕ → ℕ → ℕ → ℕ → Handler
  locked x y t u = noted u (waiting q e y) (noted t (waiting p d x) s)

  both-begun :
      (swapped : Bool) (at : ℕ → ℕ)
      → get id s.active ≡ none
      → both swapped (at 0) (at 1) (new_capture id p d) (new_capture id q e) s
        ≡ (waiting p d (begun (not swapped) at), waiting q e (begun swapped at), s)
  unfolding both advance
  both-begun false at free =
      rw
        (
          begin_free (at 0) (new_capture id p d) s free,
          begin_free (at 1) (new_capture id q e) s free,
        )
        refl
  both-begun true at free =
      rw
        (
          begin_free (at 0) (new_capture id q e) s free,
          begin_free (at 1) (new_capture id p d) s free,
        )
        refl

  both-locked :
      (x y t u : ℕ)
      → both false t u (waiting p d x) (waiting q e y) s ≡ (
        record (waiting p d x) { phase = capturing },
        record (waiting q e y) { phase = capturing },
        locked x y t u,
      )
  unfolding both advance
  both-locked x y t u =
      rw
        (
          record_delayed t (waiting p d x) s hd,
          record_delayed u (waiting q e y) (noted t (waiting p d x) s) he,
        )
        refl

  both_verified :
      (second_first : Bool) (x y t u v w : ℕ)
      → IsLost second_first (v - y) s (
          both second_first v w
            (record (waiting p d x) { phase = capturing })
            (record (waiting q e y) { phase = capturing })
            (locked x y t u))
  unfolding both advance
  both_verified false x y t u v w =
      let s' = locked x y t u in
      let here : get id s'.active ≡ some q =
        rw (get-set id id q (set id p s.active), eq_refl id) refl in
      let gone : get id (lost id s').active ≡ none =
        rw (get-delete id id s'.active, eq_refl id) refl in
      rw
        (
          verify_replaced v q (record (waiting p d x) { phase = capturing }) s' here apart,
          verify_gone w (record (waiting q e y) { phase = capturing }) (lost id s') gone,
        )
        (record { first = refl; second = refl; races = omega arith; noted = refl })
  both_verified true x y t u v w =
      let s' = locked x y t u in
      let here : get id s'.active ≡ some q =
        rw (get-set id id q (set id p s.active), eq_refl id) refl in
      let s'' = release id (record s' { latencies = s.latencies ++ (v - y) ∷ [] }) in
      let gone : get id s''.active ≡ none = rw (get-delete id id s'.active, eq_refl id) refl in
      rw
        (
          verify_held v (record (waiting q e y) { phase = capturing }) s' here,
          verify_gone w (record (waiting p d x) { phase = capturing }) s'' gone,
        )
        (record { first = refl; second = refl; races = refl; noted = refl })

-- Of two captures of a bug that is not being captured, with different tokens and nonzero delays,
-- that both begin before either has its lock and both have it before either verifies, the one that has
-- its lock first is rejected. The other one is rejected too where the first one verifies first, with
-- two races counted and no latency noted; where it verifies first itself, it returns, with one race
-- counted.
pub raced-IsLost :
    (swapped second_first : Bool) (at : ℕ → ℕ) (id : String) (p q d e : ℕ) (s : Handler)
    → get id s.active ≡ none
    → (q == p) ≡ false
    → ltb 0 d ≡ true
    → ltb 0 e ≡ true
    → IsLost second_first
        (at 4 - begun swapped at)
        s
        (raced swapped second_first at (new_capture id p d) (new_capture id q e) s)
unfolding raced
raced-IsLost swapped second_first at id p q d e s free apart hd he =
    let x = begun (not swapped) at in
    let y = begun swapped at in
    rw
      (
        both-begun id p q d e apart hd he s swapped at free,
        both-locked id p q d e apart hd he s x y (at 2) (at 3),
      )
      (both_verified id p q d e apart hd he s second_first x y (at 2) (at 3) (at 4) (at 5))
