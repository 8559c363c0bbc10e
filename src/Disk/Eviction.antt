-- ===== src/Disk/Eviction.antt =====
-- `evictLRU` of modules/runtime-learning-engine/disk-exhaustion-handler.ts.
use frida_desktop.Prelude.{
  ℕ, zero, suc, ◌+◌, ◌≤◌, ◌<◌, String, ◌≡◌, refl, sym, ap, ◌∙◌, false, not, List, [], ◌∷◌, ◌++◌,
  ◌⊎◌, inl, inr, map, All, leb, arith, Bool-cases, filter, append_assoc, append-nil,
}
use mathlib.Core.Path.{subst}
use frida_desktop.Prelude.Dict
use frida_desktop.Floats.{Floats}
use frida_desktop.Disk.Defs.{
  EvictableItem, DiskHandler, is_critical, evict_items, evict_lru, candidates, sort_items,
  insert_item, calculate_eviction_score,
}

abbrev pub take : ℕ → List EvictableItem → List EvictableItem
take zero is = []
take (suc n) [] = []
take (suc n) (i ∷ is) = i ∷ take n is

abbrev pub megabytes : List EvictableItem → ℕ
megabytes [] = 0
megabytes (i ∷ is) = i.size_mb + megabytes is

-- What an eviction from the sorted items `is` did, with `have` megabytes free before.
pub record IsEviction (now target have : ℕ) (is : List EvictableItem) (s : DiskHandler)
    (r : List (String × ℕ) × DiskHandler) : Type 0 where
  pub gone : ℕ
  pub answered : r.0 ≡ map (λ i. (i.id, i.size_mb)) (take gone is)
  pub logged : r.1.eviction_log ≡ s.eviction_log ++ map (λ i. (now, i.id, i.size_mb)) (take gone is)
  pub enough : (target ≤ have + megabytes (take gone is)) ⊎ (take gone is ≡ is)
  pub needed : (k : ℕ) → k < gone → have + megabytes (take k is) < target

evict_items-IsEviction :
    (now target free : ℕ) (is : List EvictableItem) (freed : ℕ) (s : DiskHandler)
    → IsEviction now target (freed + free) is s (evict_items now target free is freed s)
unfolding evict_items
evict_items-IsEviction now target free [] freed s = record {
  gone = 0;
  answered = refl;
  logged = sym (append-nil s.eviction_log);
  enough = inr refl;
  needed = λ k h. absurd (omega arith);
}
evict_items-IsEviction now target free (i ∷ is) freed s =
    elim (Bool-cases (leb target (freed + free))) [
      | inl done ↦ simp done (record {
        gone = 0;
        answered = refl;
        logged = sym (append-nil s.eviction_log);
        enough = inl (ground (arith, done));
        needed = λ k h. absurd (omega arith);
      })
      | inr short ↦
          let s' : DiskHandler = record {
            items = Dict.delete i.id s.items;
            eviction_log = s.eviction_log ++ (now, i.id, i.size_mb) ∷ [];
          } in
          let h = evict_items-IsEviction now target free is (freed + i.size_mb) s' in
          simp short (record {
            gone = suc h.gone;
            answered = ap (λ out. (i.id, i.size_mb) ∷ out) h.answered;
            logged = h.logged ∙ append_assoc s.eviction_log ((now, i.id, i.size_mb) ∷ []) _;
            enough = elim h.enough [
              | inl e ↦ inl (omega (arith, e))
              | inr e ↦ inr (ap (λ rest. i ∷ rest) e)
            ];
            needed = first h.gone h.needed (ground (arith, short));
          })
    ]
  where
    first :
        (g : ℕ)
        → ((k : ℕ) → k < g → freed + i.size_mb + free + megabytes (take k is) < target)
        → freed + free < target
        → (k : ℕ) → k < suc g
        → freed + free + megabytes (take k (i ∷ is)) < target
    first g rest now zero h = omega arith
    first g rest now (suc k) h = omega (arith, rest k (omega arith))

abbrev pub IsExpendable : EvictableItem → Type 0
IsExpendable i = is_critical i.priority ≡ false

filter-IsExpendable :
    (is : List EvictableItem) → All IsExpendable (filter (λ i. not (is_critical i.priority)) is)
filter-IsExpendable [] = tt
filter-IsExpendable (i ∷ is) = elim (Bool-cases (is_critical i.priority)) [
  | inl e ↦ simp e (filter-IsExpendable is)
  | inr e ↦ simp e (refl, filter-IsExpendable is)
]

module _ {N : Type 0} (f : Floats N) where
  insert_item-IsExpendable :
      (now : ℕ) (i : EvictableItem) (is : List EvictableItem)
      → IsExpendable i
      → All IsExpendable is
      → All IsExpendable (insert_item f now i is)
  unfolding insert_item
  insert_item-IsExpendable now i [] h hs = (h, tt)
  insert_item-IsExpendable now i (j ∷ js) h hs =
      elim (Bool-cases
        (f.lt (calculate_eviction_score f now j) (calculate_eviction_score f now i))) [
          | inl e ↦ simp e (hs.0, insert_item-IsExpendable now i js h hs.1)
          | inr e ↦ simp e (h, hs)
        ]

  sort_items-IsExpendable :
      (now : ℕ) (is : List EvictableItem)
      → All IsExpendable is
      → All IsExpendable (sort_items f now is)
  unfolding sort_items
  sort_items-IsExpendable now [] h = tt
  sort_items-IsExpendable now (i ∷ is) h =
      insert_item-IsExpendable now i (sort_items f now is) h.0 (sort_items-IsExpendable now is h.1)

  -- With too little free, an eviction answers and logs a first part of the candidates, none of
  -- them critical: enough of them to reach the target, or all, and none once the target is reached.
  pub evict_lru-IsEviction :
      (now target free : ℕ) (s : DiskHandler)
      → free < target
      → IsEviction now target free (candidates f now s) s (evict_lru f now target free s)
        × All IsExpendable (candidates f now s)
  unfolding evict_lru candidates
  evict_lru-IsEviction now target free s short =
      let low : leb target free ≡ false = ground arith in
      let none_freed : 0 + free ≡ free = omega arith in
      (
        simp low (
            subst
              (λ have.
                IsEviction now target have (candidates f now s) s
                  (evict_items now target free (candidates f now s) 0 s))
              none_freed (evict_items-IsEviction now target free (candidates f now s) 0 s)),
        sort_items-IsExpendable now _ (filter-IsExpendable (Dict.values s.items)),
      )
