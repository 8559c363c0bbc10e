-- ===== src/Disk/Order.antt =====
-- The order of eviction, against the age that the items have.
use frida_desktop.Prelude.{ℕ, ◌^◌, ◌≤◌, ◌<◌, ◌≡◌, true, false}
use frida_desktop.Prelude.Dict
use frida_desktop.Floats.{Floats}

-- Comparison is asymmetric, and whole numbers up to 2 ^ 50 stay apart when they are divided twice by whole numbers up to 1000: a
-- double has 53 bits.
pub record QuotientLaw {N : Type 0} (f : Floats N) : Type 0 where
  pub lt_asym : (a b : N) → f.lt a b ≡ true → f.lt b a ≡ false
  pub apart :
      (a b c d : ℕ)
      → a < b
      → b ≤ 2 ^ 50
      → 0 < c
      → c ≤ 1000
      → 0 < d
      → d ≤ 1000
      → f.lt
          (f.div (f.div (f.of_nat a) (f.of_nat c)) (f.of_nat d))
          (f.div (f.div (f.of_nat b) (f.of_nat c)) (f.of_nat d))
        ≡ true
