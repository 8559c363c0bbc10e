-- ===== src/Fixer/Values.antt =====
-- What a hooked method does: auto-fixer.ts, `defaultArgumentForType`, `defaultValueForType` and the
-- closures `wrapped` and `patchedMethod`. A Java value that is no default of a type is opaque.
use frida_desktop.Prelude.{
  ℕ, suc, ◌+◌, String, ◌≡◌, refl, Bool, true, false, ◌&&◌, ◌||◌, Option, none, some, List, [], ◌∷◌,
  map, ◌==◌, leb, if◌then◌else◌, any, length, ap,
}
use Prim.Native.Char.{code}

pub data Value : Type 0 where
  undefined null : Value
  bool : Bool → Value
  num : ℕ → Value
  char : ℕ → Value
  text : String → Value
  object : ℕ → Value

abbrev pub codes : String → List ℕ
codes String.[] = []
codes (String.◌∷◌ c s) = code c ∷ codes s

-- `toLowerCase` on the letters of the type names that the program tests for.
abbrev pub to_lower : String → List ℕ
to_lower s = map (λ c. if leb b'A' c && leb c b'Z' then c + 32 else c) (codes s)

abbrev pub same : List ℕ → List ℕ → Bool
same [] [] = true
same (x ∷ xs) (y ∷ ys) = x == y && same xs ys
same _ _ = false

abbrev pub is_numeric : List ℕ → Bool
is_numeric t =
    any (λ name. same (codes name) t) ("byte" ∷ "short" ∷ "int" ∷ "long" ∷ "float" ∷ "double" ∷ [])

-- `none` is `{ supported: false }`.
unfoldable pub default_argument_for_type : String → Option Value
default_argument_for_type type_name =
    let normalized = to_lower type_name in
    if same normalized (codes "boolean")
    then some (bool false)
    else if is_numeric normalized
    then some (num 0)
    else if same normalized (codes "char")
    then some (char 0)
    else none

unfoldable pub default_value_for_type : String → Value
default_value_for_type type_name =
    let normalized = to_lower type_name in
    if same normalized (codes "void")
    then undefined
    else if same normalized (codes "boolean")
    then bool false
    else if is_numeric normalized
    then num 0
    else if same normalized (codes "char")
    then char 0
    else if same normalized (codes "java.lang.string") || same normalized (codes "string")
    then text ""
    else null

-- A call of the original method returns or throws.
pub data Outcome : Type 0 where
  returned : Value → Outcome
  threw : Outcome

-- The closure `wrapped` of the try-catch fallback.
unfoldable pub call_wrapped : (List Value → Outcome) → String → List Value → Outcome
call_wrapped original return_type args = elim (original args) [
  | returned v ↦ returned v
  | threw ↦ returned (default_value_for_type return_type)
]

abbrev pub is_nullish : Value → Bool
is_nullish undefined = true
is_nullish null = true
is_nullish _ = false

-- `argumentTypes[i]` past the end is undefined, which no default is for.
abbrev pub type_at : List String → String
type_at [] = ""
type_at (t ∷ ts) = t

abbrev pub rest_of : List String → List String
rest_of [] = []
rest_of (t ∷ ts) = ts

abbrev pub or_else : Option Value → Value → Value
or_else none v = v
or_else (some w) v = w

-- The loop over the arguments: a missing primitive gets its default.
unfoldable pub fill_arguments : List String → List Value → List Value
fill_arguments types [] = []
fill_arguments types (a ∷ as') =
    (if is_nullish a then or_else (default_argument_for_type (type_at types)) a else a)
    ∷ fill_arguments (rest_of types) as'

-- The closure `patchedMethod`, with the exception test made by the caller.
unfoldable pub call_patched :
    (List Value → Outcome) → Bool → List String → String → List Value → Outcome
unfolding call_wrapped
call_patched original null_pointer argument_types return_type args =
    call_wrapped original return_type
      (if null_pointer then fill_arguments argument_types args else args)

-- The arguments that a method is called with keep their number.
pub length-fill_arguments :
    (types : List String) (args : List Value) → length (fill_arguments types args) ≡ length args
unfolding fill_arguments
length-fill_arguments types [] = refl
length-fill_arguments types (a ∷ as') = ap suc (length-fill_arguments (rest_of types) as')
