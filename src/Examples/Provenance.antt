-- ===== src/Examples/Provenance.antt =====
-- A tracked fix.
use frida_desktop.Prelude.{Bool, String, List, [], ◌∷◌, true}
use frida_desktop.Provenance.Defs.{new_tracker, absent}
use frida_desktop.Provenance.Linked.{
  Recording, bug_captured, pattern_found, fix_made, tested, rolled_back, run, Linked,
  provenance_run-Linked,
}

abbrev noted : Bool → String → String
noted true s = s
noted _ s = "failed"

abbrev recordings : List (Recording String)
recordings =
    bug_captured 1 "bug" "a null pointer"
    ∷ pattern_found 2 "pattern" "two bugs" ("bug" ∷ "lost" ∷ [])
    ∷ fix_made 3 "fix" "a null guard" "pattern"
    ∷ tested 4 "test" "a smoke test" "fix" true
    ∷ rolled_back 5 "undone" "by hand" "fix"
    ∷ []

provenance_run-Linked_example : Linked (run noted recordings (new_tracker true absent))
provenance_run-Linked_example = provenance_run-Linked noted recordings true
