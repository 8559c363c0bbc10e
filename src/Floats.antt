-- ===== src/Floats.antt =====
-- The numbers of JavaScript that are no counts: IEEE 754 doubles, as an interface. A literal such as
-- 0.7 is the double nearest to 7 / 10, which the division of 7 by 10 is too.
use frida_desktop.Prelude.{ℕ, ◌≤◌, ◌≡◌, Bool, true, false, ◌&&◌, ◌⊎◌}

pub record Floats (N : Type 0) : Type 0 where
  pub of_nat : ℕ → N
  pub lt : N → N → Bool
  pub le : N → N → Bool
  pub add : N → N → N
  pub sub : N → N → N
  pub mul : N → N → N
  pub div : N → N → N
  pub fmin : N → N → N
  pub fmax : N → N → N

-- What is not NaN is at most itself.
abbrev pub IsNumber : {N : Type 0} → Floats N → N → Type 0
IsNumber f x = f.le x x ≡ true

-- What the standard says of the comparisons and of `Math.min`, NaN included.
pub record FloatLaws {N : Type 0} (f : Floats N) : Type 0 where
  pub lt_asym : (a b : N) → f.lt a b ≡ true → f.lt b a ≡ false
  pub le_of_lt : (a b : N) → f.lt a b ≡ true → f.le a b ≡ true
  pub not_lt_of_le : (a b : N) → f.le a b ≡ true → f.lt b a ≡ false
  pub le_trans : (a b c : N) → f.le a b ≡ true → f.le b c ≡ true → f.le a c ≡ true
  pub le_total : (a b : N) → IsNumber f a → IsNumber f b → (f.le a b ≡ true) ⊎ (f.lt b a ≡ true)
  pub fmin_le : (a b : N) → IsNumber f a → IsNumber f b → f.le (f.fmin a b) a ≡ true
  pub of_nat_number : (n : ℕ) → IsNumber f (f.of_nat n)
  pub of_nat_mono : (m n : ℕ) → m ≤ n → f.le (f.of_nat m) (f.of_nat n) ≡ true

-- `===` of numbers
abbrev pub feq : {N : Type 0} → Floats N → N → N → Bool
feq f x y = f.le x y && f.le y x
