-- ===== src/Examples/Disk.antt =====
-- Two items of one priority on a full disk.
use frida_desktop.Prelude.{ℕ, ◌+◌, ◌-◌, ◌*◌, ltb, leb, if◌then◌else◌, [], ◌∷◌, All, arith}
use frida_desktop.Disk.Defs.{EvictableItem, DiskHandler, low, candidates, evict_lru}
use frida_desktop.Prelude.Dict
use frida_desktop.Disk.Eviction.{IsEviction, IsExpendable, evict_lru-IsEviction}
use frida_desktop.Floats.{Floats}
use frida_desktop.Examples.Data.{hundredths}

abbrev unused : EvictableItem
unused = record { id = "unused"; size_mb = 40; last_accessed_ms = 1000; priority = low }

abbrev in_use : EvictableItem
in_use = record { id = "in_use"; size_mb = 60; last_accessed_ms = 899000; priority = low }

abbrev full_disk : DiskHandler
full_disk = record { items = ("unused", unused) ∷ ("in_use", in_use) ∷ []; eviction_log = [] }

evict_lru-IsEviction_example :
    IsEviction 900000 100 45
      (candidates hundredths 900000 full_disk)
      full_disk
      (evict_lru hundredths 900000 100 45 full_disk)
    × All IsExpendable (candidates hundredths 900000 full_disk)
evict_lru-IsEviction_example = evict_lru-IsEviction hundredths 900000 100 45 full_disk (omega arith)

-- Fractions of whole numbers.
abbrev fractions : Floats (ℕ × ℕ)
fractions = record {
  of_nat = λ n. (n, 1);
  lt = λ x y. ltb (x.0 * y.1) (y.0 * x.1);
  le = λ x y. leb (x.0 * y.1) (y.0 * x.1);
  add = λ x y. (x.0 * y.1 + y.0 * x.1, x.1 * y.1);
  sub = λ x y. (x.0 * y.1 - y.0 * x.1, x.1 * y.1);
  mul = λ x y. (x.0 * y.0, x.1 * y.1);
  div = λ x y. (x.0 * y.1, x.1 * y.0);
  fmin = λ x y. if leb (x.0 * y.1) (y.0 * x.1) then x else y;
  fmax = λ x y. if leb (x.0 * y.1) (y.0 * x.1) then y else x;
}
