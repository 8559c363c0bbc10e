-- ===== src/Store/Buffer.antt =====
-- The buffer of events of modules/runtime-learning-engine/bug-store.ts against the list of all events.
use frida_desktop.Prelude.{
  ℕ, zero, suc, ◌+◌, ◌-◌, ◌≤◌, String, ◌≡◌, refl, true, some, List, [], ◌∷◌, ◌++◌, map, arith, ltb,
  length, drop, Bool-cases, inl, inr, length-append, length-drop, append_assoc, append-nil, ap, sym,
  ◌∙◌,
}
use frida_desktop.Types.{BugEvent, BugHistoryStore}
use frida_desktop.Store.Defs.{
  BugStore, Summary, push_bounded, load_history, cached_or_loaded, append_event, save_history,
}

-- The last n elements.
abbrev pub last_n {ℓ} : {A : Type ℓ} → ℕ → List A → List A
last_n n xs = drop (length xs - n) xs

module _ {ℓ} {A : Type ℓ} where
  drop-append : (n : ℕ) (xs ys : List A) → n ≤ length xs → drop n (xs ++ ys) ≡ drop n xs ++ ys
  drop-append zero xs ys h = refl
  drop-append (suc n) [] ys h = absurd (omega arith)
  drop-append (suc n) (x ∷ xs) ys h = drop-append n xs ys (omega arith)

  drop-drop : (n : ℕ) (xs : List A) → drop 1 (drop n xs) ≡ drop (suc n) xs
  drop-drop zero xs = refl
  drop-drop (suc n) [] = refl
  drop-drop (suc n) (x ∷ xs) = drop-drop n xs

push_bounded-last_n :
    (n : ℕ) (e : BugEvent) (xs : List BugEvent)
    → push_bounded n e (last_n n xs) ≡ last_n n (xs ++ e ∷ [])
unfolding push_bounded
push_bounded-last_n n e xs = elim (Bool-cases (ltb n (length (last_n n xs ++ e ∷ [])))) [
  | inl full ↦
      let k : length (xs ++ e ∷ []) - n ≡ suc (length xs - n) = ground (arith, sizes, full) in
      rw full (
        ap (drop 1) (sym (drop-append (length xs - n) xs (e ∷ []) (omega arith)))
        ∙ drop-drop (length xs - n) (xs ++ e ∷ [])
        ∙ ap (λ i. drop i (xs ++ e ∷ [])) (sym k))
  | inr room ↦
      let k : length xs - n ≡ 0 = ground (arith, sizes, room) in
      let k' : length (xs ++ e ∷ []) - n ≡ 0 = ground (arith, sizes, room) in
      rw room (rw k' (ap (λ i. drop i xs ++ e ∷ []) k))
]
  where
    sizes :
        (length (last_n n xs ++ e ∷ []) ≡ (length xs - (length xs - n)) + 1)
        × (length (xs ++ e ∷ []) ≡ length xs + 1)
    sizes = (
      omega (arith, length-append {0} (last_n n xs) (e ∷ []), length-drop {0} (length xs - n) xs),
      omega (arith, length-append {0} xs (e ∷ [])),
    )

module _ {N : Type 0} (summarize : Summary → String) where
  -- Calls of `appendEvent`, each at its time.
  pub append_all : List (ℕ × BugEvent) → BugStore N → BugStore N
  append_all [] s = s
  append_all ((now, e) ∷ es) s = append_all es (append_event summarize now e s)

  -- The history is in memory, with these events.
  record IsLoaded (s : BugStore N) (n : ℕ) (xs : List BugEvent) : Type 0 where
    history : BugHistoryStore N
    in_memory : s.cached ≡ some history
    ready : s.initialized ≡ true
    bound : s.max_events ≡ n
    events_are : history.events ≡ xs

  load_history_loaded :
      (now : ℕ) (s : BugStore N) (n : ℕ) (xs : List BugEvent) (l : IsLoaded s n xs)
      → load_history summarize now s ≡ (l.history, s)
  unfolding load_history
  load_history_loaded now s n xs l =
      ap (λ c. cached_or_loaded summarize now c s) l.in_memory ∙ simp (l.ready)

  save_history_keeps :
      (now : ℕ) (store : BugHistoryStore N) (s : BugStore N)
      → ((save_history summarize now store s).0.events ≡ store.events)
        × ((save_history summarize now store s).1.initialized ≡ s.initialized)
        × ((save_history summarize now store s).1.max_events ≡ s.max_events)
  unfolding save_history
  save_history_keeps now store s = elim (Bool-cases s.disk_ok) [
    | inl ok ↦ simp ok (refl, refl, refl)
    | inr bad ↦ simp bad (refl, refl, refl)
  ]

  append_event-IsLoaded :
      (now : ℕ) (e : BugEvent) (s : BugStore N) (n : ℕ) (xs : List BugEvent)
      → IsLoaded s n xs
      → IsLoaded (append_event summarize now e s) n (push_bounded n e xs)
  unfolding append_event
  append_event-IsLoaded now e s n xs l =
      let pushed = record (l.history) { events = push_bounded s.max_events e l.history.events } in
      let (kept, ready, bound) = save_history_keeps now pushed s in
      rw (load_history_loaded now s n xs l) (record {
        history = (save_history summarize now pushed s).0;
        in_memory = refl;
        ready = ready ∙ l.ready;
        bound = bound ∙ l.bound;
        events_are = kept ∙ cc (l.bound, l.events_are);
      })

  append_all-IsLoaded :
      (es : List (ℕ × BugEvent)) (s : BugStore N) (n : ℕ) (xs : List BugEvent)
      → IsLoaded s n (last_n n xs)
      → IsLoaded (append_all es s) n (last_n n (xs ++ map (λ p. p.1) es))
  unfolding append_all
  append_all-IsLoaded [] s n xs l = rw (append-nil xs) l
  append_all-IsLoaded ((now, e) ∷ es) s n xs l =
      rw (← append_assoc xs (e ∷ []) (map (λ p. p.1) es)) (
        append_all-IsLoaded es (append_event summarize now e s) n (xs ++ e ∷ [])
          (rw (← push_bounded-last_n n e xs) (append_event-IsLoaded now e s n (last_n n xs) l)))

  -- A history in memory that is within its bound, after any calls of `appendEvent`, whether or not
  -- the disk took the writes, holds the last of its old events and the new ones, up to the bound.
  pub append_all-last_n :
      (es : List (ℕ × BugEvent)) (s : BugStore N) (h : BugHistoryStore N)
      → s.cached ≡ some h
      → s.initialized ≡ true
      → length h.events ≤ s.max_events
      → (h' : BugHistoryStore N) × ((append_all es s).cached ≡ some h')
        × (h'.events ≡ last_n s.max_events (h.events ++ map (λ p. p.1) es))
  append_all-last_n es s h held ready fits =
      let none_over : length h.events - s.max_events ≡ 0 = omega arith in
      let l = append_all-IsLoaded es s s.max_events h.events (record {
        history = h;
        in_memory = held;
        ready = ready;
        bound = refl;
        events_are = sym (ap (λ k. drop k h.events) none_over);
      }) in
      (l.history, l.in_memory, l.events_are)
