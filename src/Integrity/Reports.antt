-- ===== src/Integrity/Reports.antt =====
-- What a report counts, and that it is kept.
use frida_desktop.Prelude.{
  ℕ, ◌+◌, ◌-◌, ◌<◌, ◌≤◌, ◌≡◌, String, Bool, true, some, List, [], ◌∷◌, ◌++◌, length, length-append,
  length-slice_last, last?, last?-append, drop, arith, refl, ◌∙◌, false, ◌⊎◌, inl, inr, zero, suc,
}
use frida_desktop.Integrity.Defs.{
  Verifier, IntegrityCheck, IntegrityReport, CheckStatus, same_status, valid, invalid, missing,
  with_status_of, verify_integrity, get_latest_report, save_report, existing_reports,
}

last?-drop : {A : Type 0} (n : ℕ) (xs : List A) → n < length xs → last? (drop n xs) ≡ last? xs
last?-drop zero xs h = refl
last?-drop (suc n) [] h = refl
last?-drop (suc n) (x ∷ []) h = absurd (omega (arith, h))
last?-drop (suc n) (x ∷ y ∷ ys) h = last?-drop n (y ∷ ys) (omega (arith, h))

-- A status is one of the three.
status_cases :
    (x : CheckStatus)
    → ((same_status x valid ≡ true)
        × (same_status x invalid ≡ false)
        × (same_status x missing ≡ false))
      ⊎ (((same_status x valid ≡ false)
            × (same_status x invalid ≡ true)
            × (same_status x missing ≡ false))
          ⊎ ((same_status x valid ≡ false)
              × (same_status x invalid ≡ false)
              × (same_status x missing ≡ true)))
status_cases valid = inl (refl, refl, refl)
status_cases invalid = inr (inl (refl, refl, refl))
status_cases missing = inr (inr (refl, refl, refl))

with_status_of_all :
    (cs : List IntegrityCheck)
    → with_status_of valid cs + with_status_of invalid cs + with_status_of missing cs ≡ length cs
with_status_of_all [] = refl
with_status_of_all (c ∷ cs) = ground (arith, with_status_of_all cs, status_cases c.status)

latest-save_report :
    (r : IntegrityReport) (s : Verifier)
    → s.disk_ok ≡ true
    → get_latest_report (save_report r s) ≡ some r
unfolding get_latest_report save_report
latest-save_report r s ok =
    let rs = existing_reports s.reports in
    let n = length (rs ++ r ∷ []) - 100 in
    simp ok
      (last?-drop n (rs ++ r ∷ []) (omega (arith, length-append rs (r ∷ []))) ∙ last?-append rs r)

save_report-length :
    (r : IntegrityReport) (s : Verifier)
    → s.disk_ok ≡ true
    → length (existing_reports (save_report r s).reports) ≤ 100
unfolding save_report
save_report-length r s ok =
    simp ok (omega (arith, length-slice_last 100 (existing_reports s.reports ++ r ∷ [])))

-- Where the disk takes writes, the report of a check counts each of the six files once, is the latest
-- report after, and at most a hundred reports are kept.
verify_integrity-latest :
    (hash : String → String) (parses : String → Bool) (now : ℕ) (s : Verifier)
    → s.disk_ok ≡ true
    → let (r, s') = verify_integrity hash parses now s in
      (r.valid + r.invalid + r.missing ≡ 6)
      × (r.total_checks ≡ 6)
      × (get_latest_report s' ≡ some r)
      × (length (existing_reports s'.reports) ≤ 100)
unfolding verify_integrity
verify_integrity-latest hash parses now s ok =
    let r = (verify_integrity hash parses now s).0 in
    (with_status_of_all r.checks, refl, latest-save_report r s ok, save_report-length r s ok)
