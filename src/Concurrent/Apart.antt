-- ===== src/Concurrent/Apart.antt =====
-- Captures of different bugs.
use frida_desktop.Prelude.{
  ℕ, ◌+◌, ◌-◌, ◌++◌, String, str_eq, eq_refl, ◌≡◌, refl, ◌∙◌, true, false, none, some, List, [],
  ◌∷◌, All, ltb, ◌==◌, if◌then◌else◌, Bool-cases, inl, inr, arith,
}
use frida_desktop.Prelude.Dict.{get, get-set, get-delete}
use frida_desktop.Concurrent.Defs.{
  Handler, Capture, Phase, called, locking, capturing, rejected, returned, advance, advance_from,
  begin, acquire_lock, lock_held, record_capture, verify_capture, with_token,
}

-- Steps of captures, each with its time.
unfoldable pub run_others : List (ℕ × Capture) → Handler → Handler
run_others [] s = s
run_others ((now, c) ∷ cs) s = run_others cs (advance now c s).1

-- A step of a capture of another bug.
abbrev IsApart : String → ℕ × Capture → Type 0
IsApart i x = str_eq x.1.bug_id i ≡ false

verify_other :
    (i : String) (now : ℕ) (c : Capture) (s : Handler)
    → str_eq c.bug_id i ≡ false
    → get i (verify_capture now c s).1.active ≡ get i s.active
unfolding verify_capture
verify_other i now c s h = ground (arith, get-delete c.bug_id i s.active)

advance_other :
    (i : String) (now : ℕ) (p : Phase) (c : Capture) (s : Handler)
    → str_eq c.bug_id i ≡ false
    → get i (advance_from p now c s).1.active ≡ get i s.active
unfolding begin record_capture acquire_lock lock_held
advance_other i now called c s h = ground arith
advance_other i now locking c s h = elim (Bool-cases (ltb 0 c.delay)) [
  | inl e ↦ simp e (ground (arith, get-set c.bug_id i c.token s.active))
  | inr e ↦ simp e (verify_other i now c _ h ∙ ground (arith, get-set c.bug_id i c.token s.active))
]
advance_other i now capturing c s h = verify_other i now c s h
advance_other i now rejected c s h = refl
advance_other i now (returned n) c s h = refl

others_apart :
    (i : String) (cs : List (ℕ × Capture)) (s : Handler)
    → All (IsApart i) cs
    → get i (run_others cs s).active ≡ get i s.active
unfolding run_others advance
others_apart i [] s h = refl
others_apart i ((now, c) ∷ cs) s h =
    others_apart i cs (advance now c s).1 h.1 ∙ advance_other i now c.phase c s h.0

same_token : (n : ℕ) → (n == n) ≡ true
same_token n = ground arith

verify_holds :
    (now : ℕ) (c : Capture) (s : Handler)
    → get c.bug_id s.active ≡ some c.token
    → ((verify_capture now c s).0.phase ≡ returned (now - c.started))
      × (get c.bug_id (verify_capture now c s).1.active ≡ none)
unfolding verify_capture
verify_holds now c s h =
    simp (h, same_token c.token)
      (refl, rw (get-delete c.bug_id c.bug_id s.active, eq_refl c.bug_id) refl)

finish :
    (id : String) (now n : ℕ) (c : Capture) (s : Handler)
    → c.phase ≡ returned n
    → get id s.active ≡ none
    → let r = advance_from c.phase now c s in (r.0.phase ≡ returned n) × (get id r.1.active ≡ none)
finish id now n c s h k = simp h (refl, k)

-- A call of `captureBugConcurrent`.
abbrev pub new_capture : String → ℕ → ℕ → Capture
new_capture id token delay = record {
  bug_id = id;
  token = token;
  delay = delay;
  started = 0;
  phase = called;
}

-- The three steps of a capture, with the steps of others between.
unfoldable pub interleaved :
    ℕ → List (ℕ × Capture) → ℕ → List (ℕ × Capture) → ℕ → Capture → Handler → Capture × Handler
interleaved t0 xs t1 ys t2 c s =
    let (c1, s1) = advance t0 c s in
    let (c2, s2) = advance t1 c1 (run_others xs s1) in advance t2 c2 (run_others ys s2)

-- A capture of a bug that is not being captured completes, whatever the steps of captures of other
-- bugs between its own: it returns its latency, no race, and the bug is not being captured after.
pub interleaved_completes :
    (id : String) (token delay t0 t1 t2 : ℕ) (xs ys : List (ℕ × Capture)) (s : Handler)
    → get id s.active ≡ none
    → All (IsApart id) xs
    → All (IsApart id) ys
    → let r = interleaved t0 xs t1 ys t2 (new_capture id token delay) s in
      (r.0.phase ≡ returned ((if ltb 0 delay then t2 else t1) - t0)) × (get id r.1.active ≡ none)
unfolding interleaved advance begin acquire_lock lock_held record_capture
interleaved_completes id token delay t0 t1 t2 xs ys s free hx hy =
    let c = record (new_capture id token delay) { started = t0; phase = locking } in
    let s1 = run_others xs s in
    let s2 = with_token c (record s1 {
      lock_waits = s1.lock_waits ++ (t1 - t0) ∷ [];
      lock_acquisitions = s1.lock_acquisitions + 1;
    }) in
    let set_here : get id s2.active ≡ some token =
      rw (get-set id id token s1.active, eq_refl id) refl in
    simp free (elim (Bool-cases (ltb 0 delay)) [
      | inl e ↦ simp e (
          verify_holds t2 (record c { phase = capturing }) (run_others ys s2)
            (others_apart id ys s2 hy ∙ set_here))
      | inr e ↦ simp e (
          let done = verify_holds t1 c s2 set_here in
          let r = verify_capture t1 c s2 in
          finish id t2 (t1 - t0) r.0 (run_others ys r.1) done.0
            (others_apart id ys r.1 hy ∙ done.1))
    ])
