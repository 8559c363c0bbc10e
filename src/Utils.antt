-- ===== src/Utils.antt =====
-- modules/runtime-learning-engine/utils.ts: the FNV-1a hash, the severity of a bug and the filter
-- by age. A text is read by its characters, which are its UTF-16 units below U+10000.
use Prim.Native.Nat.{bit_xor}
use Prim.Native.Char.{code}
use frida_desktop.Prelude.{
  ℕ, zero, suc, ◌+◌, ◌*◌, ◌/◌, ◌%◌, ◌^◌, ◌≤◌, String, str_append, ◌≡◌, refl, List, [], ◌∷◌, filter,
  leb, ltb, if◌then◌else◌, arith,
}
use frida_desktop.Types.{
  BugType, crash, anr, memory_leak, deadlock, BugEvent, Severity, critical, high, medium,
}

abbrev fnv_prime : ℕ
fnv_prime = 1099511628211

abbrev pub fnv_init : ℕ
fnv_init = 14695981039346656037

-- The loop over the input. `& ((1n << 64n) - 1n)` keeps 64 bits.
unfoldable pub fnv_loop : ℕ → String → ℕ
fnv_loop hash String.[] = hash
fnv_loop hash (String.◌∷◌ c s) = fnv_loop (bit_xor hash (code c) * fnv_prime % 2 ^ 64) s

abbrev hex_digit : ℕ → String
hex_digit n =
    pick n
      ("0" ∷ "1" ∷ "2" ∷ "3" ∷ "4" ∷ "5" ∷ "6" ∷ "7" ∷ "8" ∷ "9" ∷ "a" ∷ "b" ∷ "c" ∷ "d" ∷ "e" ∷ [])
  where
    pick : ℕ → List String → String
    pick zero (d ∷ ds) = d
    pick (suc n) (d ∷ ds) = pick n ds
    pick n [] = "f"

-- `toString(16).padStart(16, '0')` of a number of 64 bits is its 16 digits.
unfoldable pub hex : ℕ → ℕ → String
hex zero n = ""
hex (suc k) n = str_append (hex k (n / 16)) (hex_digit (n % 16))

unfoldable pub calculate_fnv1a64 : String → String
unfolding fnv_loop hex
calculate_fnv1a64 input = str_append "0x" (hex 16 (fnv_loop fnv_init input))

-- The published test vectors of FNV-1a for "" and "a".
fnv_vectors :
    (calculate_fnv1a64 "" ≡ "0xcbf29ce484222325") × (calculate_fnv1a64 "a" ≡ "0xaf63dc4c8601ec8c")
unfolding calculate_fnv1a64
fnv_vectors = (refl, refl)

unfoldable pub calculate_severity : BugType → ℕ → Severity
calculate_severity crash n = if ltb 5 n then critical else high
calculate_severity deadlock n = if ltb 5 n then critical else high
calculate_severity anr n = if ltb 3 n then high else medium
calculate_severity memory_leak n = if ltb 10 n then critical else if ltb 5 n then high else medium

-- `now - e.timestamp <= windowMs`; a time to come is within every window.
unfoldable pub filter_by_time_window : ℕ → ℕ → List BugEvent → List BugEvent
filter_by_time_window now window events = filter (λ e. leb now (window + e.timestamp)) events

-- How grave a severity is.
abbrev pub rank : Severity → ℕ
rank critical = 4
rank high = 3
rank medium = 2
rank _ = 1

-- For a kind of bug, more occurrences never lower the severity.
calculate_severity_mono :
    (b : BugType) (m n : ℕ) → m ≤ n → rank (calculate_severity b m) ≤ rank (calculate_severity b n)
unfolding calculate_severity
calculate_severity_mono crash m n h = ground arith
calculate_severity_mono anr m n h = ground arith
calculate_severity_mono memory_leak m n h = ground arith
calculate_severity_mono deadlock m n h = ground arith
