-- ===== src/Safety/Corruption.antt =====
-- `CorruptionRecoveryHandler` of modules/runtime-learning-engine/corruption-recovery.ts. What
-- `JSON.parse` answers is a parameter; the length of a text is the number of its characters.
use Prim.Native.Char.{Char, code}
use frida_desktop.Prelude.{
  ℕ, suc, ◌-◌, String, str_append, str_eq, Bool, true, false, not, ◌&&◌, ◌||◌, Option, none, some,
  List, [], ◌∷◌, ◌++◌, ltb, ◌==◌, if◌then◌else◌, length, filter,
}
use frida_desktop.Types.{Severity, critical, high, medium}
use frida_desktop.Floats.{Floats, feq}
use frida_desktop.Utils.{hex, fnv_init, fnv_loop}

pub data CorruptionType : Type 0 where
  invalid_json truncated checksum_mismatch missing_fields : CorruptionType

pub record Detection : Type 0 where
  pub file_name : String
  pub corruption_type : CorruptionType
  pub severity : Severity
  pub detected : Bool
  pub error_message : String
  pub recovery_possible : Bool

abbrev is_char : ℕ → Char → Bool
is_char n c = code c == n

unfoldable count_char : ℕ → String → ℕ
count_char n String.[] = 0
count_char n (String.◌∷◌ c s) = let rest = count_char n s in if is_char n c then suc rest else rest

abbrev pub text_length : String → ℕ
text_length String.[] = 0
text_length (String.◌∷◌ c s) = suc (text_length s)

abbrev is_closing : Char → Bool
is_closing c = is_char 125 c || is_char 93 c

abbrev extend : Char → Option String → Option String
extend c (some p) = some (String.◌∷◌ c p)
extend c none = if is_closing c then some (String.◌∷◌ c String.[]) else none

-- `content.substring(0, lastBrace + 1)`, or none where there is no brace.
unfoldable prefix_to_brace : String → Option String
prefix_to_brace String.[] = none
prefix_to_brace (String.◌∷◌ c s) = extend c (prefix_to_brace s)

abbrev is_empty : String → Bool
is_empty String.[] = true
is_empty (String.◌∷◌ c s) = false

abbrev starts_with : ℕ → String → Bool
starts_with n String.[] = false
starts_with n (String.◌∷◌ c s) = is_char n c

abbrev ends_in_newline : String → Bool
ends_in_newline String.[] = false
ends_in_newline (String.◌∷◌ c String.[]) = is_char 10 c
ends_in_newline (String.◌∷◌ c (String.◌∷◌ d s)) = ends_in_newline (String.◌∷◌ d s)

-- `parse_error` is the message of the error that `JSON.parse` throws, if it does.
module _ (parse_error : String → Option String) where
  abbrev parses : String → Bool
  parses s = elim (parse_error s) [ none ↦ true | some e ↦ false ]

  unfoldable valid_prefix : Option String → Bool
  valid_prefix none = false
  valid_prefix (some p) =
      if starts_with 91 p
      then parses (str_append p "]")
      else if starts_with 123 p
      then parses p
      else false

  unfoldable pub can_recover_from_json : String → Bool
  unfolding count_char prefix_to_brace valid_prefix
  can_recover_from_json s =
      if is_empty s
      then false
      else if ltb (count_char 125 s) (count_char 123 s) || ltb (count_char 93 s) (count_char 91 s)
      then true
      else valid_prefix (prefix_to_brace s)

  unfoldable pub json_finding : String → Option String → Detection
  json_finding s none = record {
    file_name = "data.json";
    corruption_type = invalid_json;
    severity = critical;
    detected = false;
    error_message = "";
    recovery_possible = false;
  }
  json_finding s (some e) = record {
    file_name = "data.json";
    corruption_type = invalid_json;
    severity = critical;
    detected = true;
    error_message = str_append "JSON parse error: " e;
    recovery_possible = can_recover_from_json s;
  }

  unfoldable pub detect_invalid_json : String → Detection
  unfolding json_finding
  detect_invalid_json s = json_finding s (parse_error s)

unfoldable detect_truncated_file : String → Detection
detect_truncated_file s =
    let cut = not (ends_in_newline s) || ltb (text_length s) 100 in
    record {
      file_name = "audit.log";
      corruption_type = truncated;
      severity = high;
      detected = cut;
      error_message = if cut then "File ends abruptly, potential data loss" else "";
      recovery_possible = cut && ltb 0 (text_length s);
    }

-- A text of hexadecimal digits without its leading zeros.
abbrev strip_zeros : String → String
strip_zeros String.[] = ""
strip_zeros (String.◌∷◌ c String.[]) = String.◌∷◌ c String.[]
strip_zeros (String.◌∷◌ c (String.◌∷◌ d s)) =
    let rest = strip_zeros (String.◌∷◌ d s) in
    if is_char 48 c then rest else String.◌∷◌ c (String.◌∷◌ d s)

-- `hash.toString(16)`, with neither a prefix nor padding.
unfoldable plain_fnv1a64 : String → String
plain_fnv1a64 s = strip_zeros (hex 16 (fnv_loop fnv_init s))

abbrev mismatch_text : String → String → String
mismatch_text expected actual =
    str_append "Checksum mismatch: expected " (str_append expected (str_append ", got " actual))

unfoldable verify_checksum : String → String → Detection
unfolding plain_fnv1a64
verify_checksum content expected =
    let matches = str_eq (plain_fnv1a64 content) expected in
    record {
      file_name = "data.json";
      corruption_type = checksum_mismatch;
      severity = critical;
      detected = not matches;
      error_message = if matches then "" else mismatch_text expected (plain_fnv1a64 content);
      recovery_possible = not matches;
    }

abbrev join_names : List String → String
join_names [] = ""
join_names (x ∷ []) = x
join_names (x ∷ y ∷ ys) = str_append x (str_append ", " (join_names (y ∷ ys)))

-- `has` says which fields are in the data.
unfoldable detect_missing_fields : (String → Bool) → List String → Detection
detect_missing_fields has required =
    let missing = filter (λ x. not (has x)) required in
    record {
      file_name = "structured-data.json";
      corruption_type = missing_fields;
      severity = if ltb 2 (length missing) then critical else medium;
      detected = ltb 0 (length missing);
      error_message =
          if ltb 0 (length missing) then str_append "Missing fields: " (join_names missing) else "";
      recovery_possible = ltb (length missing) (length required);
    }

pub data RecoveryStatus : Type 0 where
  full_recovery partial_recovery unrecoverable : RecoveryStatus

pub record RecoveryResult (N : Type 0) : Type 0 where
  pub corrupted_items : ℕ
  pub recovered_items : ℕ
  pub permanent_loss : ℕ
  pub recovery_success_rate : N
  pub status : RecoveryStatus

abbrev is_unrecoverable : RecoveryStatus → Bool
is_unrecoverable unrecoverable = true
is_unrecoverable _ = false

-- `print` is the text of a number, and `round` is `Math.round`.
module _ {N : Type 0} (f : Floats N) (round : N → ℕ) (print : ℕ → String) where
  abbrev hundredths : ℕ → N
  hundredths n = f.div (f.of_nat n) (f.of_nat 100)

  -- From a backup, from the audit log, or not at all.
  unfoldable recovered_of : ℕ → Bool → Bool → ℕ
  recovered_of n true audit = round (f.mul (f.of_nat n) (hundredths 95))
  recovered_of n false true = round (f.mul (f.of_nat n) (hundredths 70))
  recovered_of n false false = 0

  -- The rate of 0 of 0 items is NaN, which is neither 100 nor above 50.
  unfoldable status_of : N → RecoveryStatus
  status_of rate =
      if feq f rate (f.of_nat 100)
      then full_recovery
      else if f.lt (f.of_nat 50) rate
      then partial_recovery
      else unrecoverable

  unfoldable execute_recovery : ℕ → Bool → Bool → List Detection → RecoveryResult N × List Detection
  unfolding recovered_of status_of
  execute_recovery n backup audit log =
      let recovered = recovered_of n backup audit in
      let rate = f.mul (f.div (f.of_nat recovered) (f.of_nat n)) (f.of_nat 100) in
      (
        record {
          corrupted_items = n;
          recovered_items = recovered;
          permanent_loss = n - recovered;
          recovery_success_rate = rate;
          status = status_of rate;
        },
        log
            ++ record {
              file_name = "recovery_executed";
              corruption_type = invalid_json;
              severity = critical;
              detected = true;
              error_message = str_append "Recovery: " (
                  str_append (print recovered)
                    (str_append "/" (str_append (print n) " items recovered")));
              recovery_possible = not (is_unrecoverable (status_of rate));
            }
              ∷ [],
      )
