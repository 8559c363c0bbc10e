-- ===== src/Compat/Defs.antt =====
-- `CompatibilityChecker` of modules/runtime-learning-engine/compatibility-checker.ts. What the globals
-- `Frida` and `Java` answer is the interface `Environment`. The time and the latency of a test are
-- arguments.
use frida_desktop.Prelude.{
  ℕ, String, str_append, str_eq, Bool, true, false, not, ◌||◌, Option, none, some, List, [], ◌∷◌,
  ◌++◌, ltb, leb, ◌==◌, if◌then◌else◌, filter, length, map,
}
use frida_desktop.Floats.{Floats}

-- The global `Frida`: it is not there, asking it throws, or it has a version.
pub data FridaGlobal : Type 0 where
  no_frida frida_throws : FridaGlobal
  frida_version : String → FridaGlobal

-- A hook on the device: no class, no such member, an exception with its text, or a method.
pub data HookAnswer : Type 0 where
  no_class no_method found : HookAnswer
  throws : String → HookAnswer

pub data SelinuxMode : Type 0 where
  enforcing unknown : SelinuxMode

pub data OverallStatus : Type 0 where
  compatible partial incompatible : OverallStatus

-- `sdk` is the level of the API, none where reading it throws or is no finite number, or a
-- negative one.
-- `number_parts` is what splitting at the dots and `Number` make of a text, none for NaN.
pub record Environment (N : Type 0) : Type 0 where
  pub frida : FridaGlobal
  pub has_java : Bool
  pub sdk : Option ℕ
  pub codename : Option String
  pub hook : String → String → HookAnswer
  pub number_parts : String → List (Option N)
  pub latency : String → ℕ
  pub print : ℕ → String

pub record HookValidation : Type 0 where
  pub hook_name : String
  pub available : Bool
  pub error : Option String
  pub latency_ms : ℕ

pub record CompatibilityReport : Type 0 where
  pub timestamp : ℕ
  pub version : String
  pub android_api_level : ℕ
  pub android_codename : String
  pub frida_compatible : Bool
  pub selinux_mode : SelinuxMode
  pub hooks_status : List HookValidation
  pub overall_status : OverallStatus
  pub recommended_actions : List String
  pub error_details : List String

-- `file` is the report that was saved last.
pub record CompatibilityChecker : Type 0 where
  pub last_report : Option CompatibilityReport
  pub file : Option CompatibilityReport
  pub disk_ok : Bool

-- The class and the method of each hook.
abbrev pub hooks : List (String × String)
hooks =
    ("java.lang.Throwable", "printStackTrace")
    ∷ ("android.app.ActivityManager", "appNotResponding")
    ∷ ("java.lang.Runtime", "gc")
    ∷ ("java.lang.Thread", "start")
    ∷ []

abbrev pub is_enforcing : SelinuxMode → Bool
is_enforcing enforcing = true
is_enforcing unknown = false

unfoldable pub get_frida_version : FridaGlobal → String
get_frida_version no_frida = "14.2.0"
get_frida_version frida_throws = "unknown"
get_frida_version (frida_version v) = if str_eq v "" then "14.2.0" else v

unfoldable pub get_codename_from_level : (ℕ → String) → ℕ → String
get_codename_from_level print level =
    if level == 29
    then "Android 10"
    else if level == 30
    then "Android 11"
    else if level == 31
    then "Android 12"
    else if level == 32
    then "Android 12 L"
    else if level == 33
    then "Android 13"
    else if level == 34
    then "Android 14"
    else if level == 35
    then "Android 15"
    else str_append "Android API " (print level)

abbrev codename_or : String → Option String → String
codename_or d none = d
codename_or d (some s) = if str_eq s "" || str_eq s "REL" then d else s

abbrev pub level_from : (ℕ → String) → Option String → Option ℕ → ℕ × String
level_from print name none = (29, "Android 10 (hosted fallback)")
level_from print name (some level) =
    if level == 0
    then (29, "Android 10 (hosted fallback)")
    else (level, codename_or (get_codename_from_level print level) name)

abbrev pub is_some : {A : Type 0} → Option A → Bool
is_some none = false
is_some (some x) = true

abbrev names_of : List HookValidation → String
names_of [] = ""
names_of (h ∷ []) = h.hook_name
names_of (h ∷ g ∷ hs) = str_append h.hook_name (str_append ", " (names_of (g ∷ hs)))

abbrev when : Bool → List String → List String
when true xs = xs
when false xs = []

unfoldable pub overall_status_of : Bool → Bool → ℕ → ℕ → SelinuxMode → OverallStatus
overall_status_of frida api failing errors mode =
    if not frida || not api || ltb 2 failing
    then incompatible
    else if ltb 0 errors || ltb 0 failing || is_enforcing mode
    then partial
    else compatible

module _ {N : Type 0} (f : Floats N) (w : Environment N) where
  abbrev pub major_ok : List (Option N) → Bool
  major_ok [] = false
  major_ok (none ∷ ps) = false
  major_ok (some major ∷ []) = false
  major_ok (some major ∷ p ∷ ps) =
      if 0 == length (filter (λ q. not (is_some q)) (p ∷ ps))
      then f.le (f.of_nat 14) major
      else false

  unfoldable pub is_frida_version_compatible : String → Bool
  is_frida_version_compatible v = major_ok (w.number_parts v)

  -- The level of the API and its name.
  unfoldable pub get_android_api_level : ℕ × String
  unfolding get_codename_from_level
  get_android_api_level =
      if w.has_java then level_from w.print w.codename w.sdk else (30, "Android 11 (hosted mock)")

  -- Every branch answers that it is unknown.
  unfoldable pub get_selinux_mode : SelinuxMode
  get_selinux_mode = unknown

  abbrev validation : String → Option String → HookValidation
  validation name error = record {
    hook_name = name;
    available = not (is_some error);
    error = error;
    latency_ms = w.latency name;
  }

  abbrev pub judge_hook : String → String → String → HookAnswer → HookValidation
  judge_hook name class method no_class =
      validation name (some (str_append "Class not found: " class))
  judge_hook name class method no_method =
      validation name (some (str_append "Method not found: " method))
  judge_hook name class method (throws e) = validation name (some e)
  judge_hook name class method found = validation name none

  unfoldable pub test_hook : String × String → HookValidation
  test_hook (class, method) =
      let name = str_append class (str_append "." method) in
      if w.has_java
      then judge_hook name class method (w.hook class method)
      else record { hook_name = name; available = true; error = none; latency_ms = 1 }

  unfoldable pub validate_hooks : List HookValidation
  unfolding test_hook
  validate_hooks = map test_hook hooks

  abbrev pub frida_ok : Bool
  frida_ok = is_frida_version_compatible (get_frida_version w.frida)

  abbrev pub api_ok : Bool
  api_ok = leb 29 get_android_api_level.0

  abbrev pub failed_hooks : List HookValidation
  failed_hooks = filter (λ h. not h.available) validate_hooks

  abbrev pub errors : List String
  errors =
      when (not frida_ok) (
        str_append "Frida version " (
          str_append (get_frida_version w.frida) " may not be compatible. Minimum required: 14.0.0")
        ∷ [])
      ++ when (not api_ok) (
          str_append "Android API level "
            (str_append (w.print get_android_api_level.0) " is below minimum (29 for Android 10)")
          ∷ [])
      ++ when (ltb 0 (length failed_hooks)) (
          str_append (w.print (length failed_hooks))
            (str_append " hook(s) failed validation: " (names_of failed_hooks))
          ∷ [])

  abbrev recommendations : List String
  recommendations =
      when (not frida_ok) ("Update Frida to version 14.0.0 or higher" ∷ [])
      ++ when (not api_ok) (
          str_append "This device runs Android "
            (str_append get_android_api_level.1 ", minimum requirement is Android 10")
          ∷ [])
      ++ when (is_enforcing get_selinux_mode) (
          "SELinux enforcing observed: verify the intended Frida deployment path and privileges"
          ∷ [])
      ++ when (ltb 0 (length failed_hooks)) (
          "Verify app is running with correct architecture (arm32/arm64)"
          ∷ "Check if app has obfuscation enabled (proguard)" ∷ [])

  unfoldable pub report_of : ℕ → CompatibilityReport
  unfolding is_frida_version_compatible get_frida_version get_android_api_level get_selinux_mode
      validate_hooks overall_status_of
  report_of now = record {
    timestamp = now;
    version = get_frida_version w.frida;
    android_api_level = get_android_api_level.0;
    android_codename = get_android_api_level.1;
    frida_compatible = frida_ok;
    selinux_mode = get_selinux_mode;
    hooks_status = validate_hooks;
    overall_status =
        overall_status_of frida_ok api_ok (length failed_hooks) (length errors) get_selinux_mode;
    recommended_actions = recommendations;
    error_details = errors;
  }

  unfoldable pub check_compatibility : ℕ → CompatibilityChecker → CompatibilityChecker
  unfolding report_of
  check_compatibility now s = record s {
    last_report = some (report_of now);
    file = if s.disk_ok then some (report_of now) else s.file;
  }

abbrev pub may_proceed : OverallStatus → Bool
may_proceed incompatible = false
may_proceed _ = true

abbrev pub proceeds : Option CompatibilityReport → Bool
proceeds none = false
proceeds (some r) = may_proceed r.overall_status

unfoldable pub can_proceed_with_deployment : CompatibilityChecker → Bool
can_proceed_with_deployment s = proceeds s.last_report
