-- ===== src/Prelude/Texts.antt =====
-- Parts of texts.
use Prim.Native.Char.{code}
use Prim.Native.String.{String}
use mathlib.Core.Bool.{Bool, true, false, ◌&&◌, ◌||◌}
use frida_desktop.Prelude.Tests.{◌==◌}

abbrev starts_with : String → String → Bool
starts_with String.[] t = true
starts_with (String.◌∷◌ c s) String.[] = false
starts_with (String.◌∷◌ c s) (String.◌∷◌ d t) = code c == code d && starts_with s t

-- `text.includes(part)`
abbrev pub includes : String → String → Bool
includes part String.[] = starts_with part ""
includes part (String.◌∷◌ d t) = starts_with part (String.◌∷◌ d t) || includes part t
