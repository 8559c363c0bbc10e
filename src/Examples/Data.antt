-- ===== src/Examples/Data.antt =====
-- The concrete environment of the examples: counts as floats, a memory of one region, and an app
-- of one class.
use frida_desktop.Prelude.{
  ℕ, ◌+◌, ◌-◌, ◌*◌, ◌/◌, String, str_append, str_eq, Bool, true, false, ltb, leb, if◌then◌else◌,
  none, some, List, [], ◌∷◌, arith, inl, inr, Bool-cases,
}
use frida_desktop.Types.{
  BugEvent, BugPattern, crash, high, auto_fix_eligible, EventStatus, monkey_patch_from_journal,
}
use frida_desktop.Utils.{hex}
use frida_desktop.Floats.{Floats, FloatLaws}
use frida_desktop.Fixer.Hooks.{Overload, Hooks, foreign}
use frida_desktop.Fixer.Methods.{Java, JavaClass, JavaMethod, Fixer}
use frida_desktop.Rollback.Defs.{FridaMemory, RollbackEngine, missing}
use frida_desktop.Store.Defs.{Summary}

-- Hundredths, so that 0.75 is 75.
abbrev pub hundredths : Floats ℕ
hundredths = record {
  of_nat = λ n. n * 100;
  lt = ltb;
  le = leb;
  add = λ a b. a + b;
  sub = λ a b. a - b;
  mul = λ a b. a * b / 100;
  div = λ a b. a * 100 / b;
  fmin = λ a b. if leb a b then a else b;
  fmax = λ a b. if leb a b then b else a;
}

pub hundredths-FloatLaws : FloatLaws hundredths
hundredths-FloatLaws = record {
  lt_asym = λ a b h. ground arith;
  le_of_lt = λ a b h. ground arith;
  not_lt_of_le = λ a b h. ground arith;
  le_trans = λ a b c h k. ground arith;
  le_total = λ a b h k. elim (Bool-cases (leb a b)) [ inl e ↦ inl e | inr e ↦ inr (ground arith) ];
  fmin_le = λ a b h k. ground arith;
  of_nat_number = λ n. ground arith;
  of_nat_mono = λ m n h. ground arith;
}

abbrev pub run_overload : Overload
run_overload = record { id = 7; argument_types = none ∷ []; return_type = none }

abbrev pub other_overload : Overload
other_overload = record { id = 8; argument_types = []; return_type = none }

abbrev pub run_method : JavaMethod
run_method = record { itself = run_overload; overloads = run_overload ∷ [] }

abbrev pub load_method : JavaMethod
load_method = record { itself = run_overload; overloads = run_overload ∷ other_overload ∷ [] }

abbrev pub main_class : JavaClass
main_class = record {
  methods = "run-1" ∷ "load-2" ∷ [];
  member = λ name.
      if str_eq name "run"
      then some run_method
      else if str_eq name "load"
      then some load_method
      else none;
}

abbrev pub app_with : (ℕ → Bool) → Java
app_with throws = record {
  use_class = λ name. if str_eq name "Main" then some main_class else none;
  throws = throws;
  activity_manager = true;
}

abbrev pub app : Java
app = app_with (λ i. false)

abbrev pub clean_hooks : Hooks
clean_hooks i = foreign i

abbrev pub clean_fixer : Fixer
clean_fixer = record { patches = []; hooks = clean_hooks }

abbrev pub pattern_of : String → BugPattern ℕ
pattern_of method = record {
  pattern_id = "p";
  bug_type = crash;
  class = "Main";
  method = method;
  exception_type = some "NullPointerException";
  occurrences = 6;
  confidence = 100;
  actionability = some auto_fix_eligible;
  last_seen = 5;
  suggested_fix = "";
  fix_strategy = monkey_patch_from_journal;
}

abbrev pub crash_at : ℕ → BugEvent
crash_at now = record {
  id = hex 4 now;
  timestamp = now;
  bug_type = crash;
  class = "Main";
  method = "run";
  exception_type = some "NullPointerException";
  stack_hash = "";
  severity = high;
  actionability = some auto_fix_eligible;
  status = EventStatus.new;
  thread_id = none;
  process_id = none;
}

abbrev pub bytes_text : List ℕ → String
bytes_text [] = ""
bytes_text (b ∷ bs) = str_append (hex 2 b) (bytes_text bs)

-- A region that answers what was written.
abbrev pub one_region : FridaMemory (List ℕ)
one_region = record {
  read_available = true;
  write_available = true;
  read = λ m address size. some m;
  write = λ m address size bytes. (true, bytes);
  base64 = bytes_text;
}

abbrev pub clean_engine : RollbackEngine
clean_engine = record {
  journals = [];
  rollback_attempts = [];
  max_journal_size = 4;
  max_rollback_attempts = 3;
  file = missing;
  disk_ok = true;
}

abbrev pub summary_text : Summary → String
summary_text s = str_append (hex 4 s.events_count) s.last_event_id
