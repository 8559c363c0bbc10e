-- ===== src/Disk/Defs.antt =====
-- `DiskExhaustionHandler`. A size is a whole number of megabytes and the time is an argument; the
-- score that items are sorted by is a double.
use frida_desktop.Prelude.{
  ℕ, ◌+◌, ◌-◌, String, Bool, true, false, not, Option, none, some, List, [], ◌∷◌, ◌++◌, ltb, leb,
  if◌then◌else◌, filter,
}
use frida_desktop.Prelude.Dict
use frida_desktop.Prelude.Dict.{Dict}
use frida_desktop.Floats.{Floats}

pub data Priority : Type 0 where
  critical high medium low : Priority

pub record EvictableItem : Type 0 where
  pub id : String
  pub size_mb : ℕ
  pub last_accessed_ms : ℕ
  pub priority : Priority

-- An entry of the log is the time, the id and the size.
pub record DiskHandler : Type 0 where
  pub items : Dict EvictableItem
  pub eviction_log : List (ℕ × String × ℕ)

-- `exhausted` is the level 'critical'.
pub data PressureLevel : Type 0 where
  healthy warning exhausted : PressureLevel

unfoldable pub register_item : ℕ → String → ℕ → Priority → DiskHandler → DiskHandler
register_item now id size priority s = record s {
  items =
      Dict.set id (record { id = id; size_mb = size; last_accessed_ms = now; priority = priority })
        s.items;
}

abbrev pub touch : ℕ → Option EvictableItem → DiskHandler → DiskHandler
touch now none s = s
touch now (some i) s = record s {
  items = Dict.set i.id (record i { last_accessed_ms = now }) s.items;
}

unfoldable pub touch_item : ℕ → String → DiskHandler → DiskHandler
touch_item now id s = touch now (Dict.get id s.items) s

-- `pressure_level` of `getDiskMetrics`.
unfoldable pub pressure_level : ℕ → PressureLevel
pressure_level free = if ltb free 50 then exhausted else if ltb free 200 then warning else healthy

abbrev pub is_critical : Priority → Bool
is_critical critical = true
is_critical _ = false

abbrev pub priority_score : Priority → ℕ
priority_score critical = 1000
priority_score high = 500
priority_score medium = 100
priority_score low = 10

-- The loop over the sorted items, which ends once enough is freed.
unfoldable pub evict_items :
    ℕ → ℕ → ℕ → List EvictableItem → ℕ → DiskHandler → List (String × ℕ) × DiskHandler
evict_items now target free [] freed s = ([], s)
evict_items now target free (i ∷ is) freed s =
    let (rest, s') = evict_items now target free is (freed + i.size_mb) (record {
      items = Dict.delete i.id s.items;
      eviction_log = s.eviction_log ++ (now, i.id, i.size_mb) ∷ [];
    }) in
    if leb target (freed + free) then ([], s) else ((i.id, i.size_mb) ∷ rest, s')

module _ {N : Type 0} (f : Floats N) where
  unfoldable pub calculate_eviction_score : ℕ → EvictableItem → N
  calculate_eviction_score now i =
      f.div (f.div (f.of_nat (now - i.last_accessed_ms)) (f.of_nat 1000))
        (f.of_nat (priority_score i.priority))

  -- `sort((a, b) => a.score - b.score)`, which is stable.
  unfoldable pub insert_item : ℕ → EvictableItem → List EvictableItem → List EvictableItem
  insert_item now i [] = i ∷ []
  insert_item now i (j ∷ js) =
      if f.lt (calculate_eviction_score now j) (calculate_eviction_score now i)
      then j ∷ insert_item now i js
      else i ∷ j ∷ js

  unfoldable pub sort_items : ℕ → List EvictableItem → List EvictableItem
  unfolding insert_item
  sort_items now [] = []
  sort_items now (i ∷ is) = insert_item now i (sort_items now is)

  unfoldable pub candidates : ℕ → DiskHandler → List EvictableItem
  candidates now s =
      sort_items now (filter (λ i. not (is_critical i.priority)) (Dict.values s.items))

  unfoldable pub evict_lru : ℕ → ℕ → ℕ → DiskHandler → List (String × ℕ) × DiskHandler
  unfolding candidates evict_items
  evict_lru now target free s =
      if leb target free then ([], s) else evict_items now target free (candidates now s) 0 s

  abbrev pub evict_at : ℕ → ℕ → PressureLevel → DiskHandler → DiskHandler
  evict_at now free exhausted s = (evict_lru now 100 free s).1
  evict_at now free warning s = (evict_lru now 200 free s).1
  evict_at now free healthy s = s

  unfoldable pub monitor_and_evict : ℕ → ℕ → DiskHandler → DiskHandler
  monitor_and_evict now free s = evict_at now free (pressure_level free) s
