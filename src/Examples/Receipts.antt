-- ===== src/Examples/Receipts.antt =====
-- The receipts of a failed and of a completed action.
use frida_desktop.Prelude.{
  ℕ, String, Bool, true, false, ◌≡◌, ◌≢◌, Option, none, some, List, [], ◌∷◌, All, sym, ap, ◌∙◌,
  arith, str_eq,
}
use frida_desktop.Prelude.Dict
use frida_desktop.Prelude.Dict.{Dict}
use frida_desktop.Receipts.Defs.{Receipt, new_generator, absent, without_hash}
use frida_desktop.Receipts.Verification.{
  Call, generated, completed_at, failed_at, run, ByCollision, receipts_run-ByCollision,
}

-- Texts that only tell what was hashed.
abbrev has_hash : Option String → Bool
has_hash none = false
has_hash _ = true

abbrev text : Bool → String
text true = "with a hash"
text false = "without"

abbrev json : Receipt ℕ → String
json r = text (has_hash r.verification_hash)

abbrev request : String → String → ℕ → Dict ℕ → String
request a x t d = "asked for"

differ : text true ≢ text false
differ same = ground (arith, ap (λ s. str_eq s "without") same)

other_fields :
    (r q : Receipt ℕ) (h : String) → q.verification_hash ≡ some h → json q ≢ json (without_hash r)
other_fields r q h e same = differ (sym (ap (λ o. text (has_hash o)) e) ∙ same)

other_object :
    (a x : String) (t : ℕ) (d : Dict ℕ) (r : Receipt ℕ) → request a x t d ≢ json (without_hash r)
other_object a x t d r same = ground (arith, ap (λ s. str_eq s "without") same)

abbrev calls : List (Call ℕ)
calls =
    generated 1 "r1" "fix" "a" []
    ∷ generated 2 "r2" "fix" "b" []
    ∷ completed_at 3 "r1" (("hooks", 2) ∷ [])
    ∷ failed_at 4 "r2" "no class"
    ∷ completed_at 5 "r3" []
    ∷ []

receipts_run-ByCollision_example :
    All
      (ByCollision json request)
      (Dict.values (run json request calls (new_generator true absent)).receipts)
receipts_run-ByCollision_example =
    receipts_run-ByCollision json request other_fields other_object calls true
