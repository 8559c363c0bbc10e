-- ===== src/Receipts/Verification.antt =====
-- What it means that a receipt verifies, over sequences of calls.
use frida_desktop.Prelude.{
  ℕ, String, str_eq, eq_iff, ◌≡◌, ◌≢◌, refl, sym, ap, ◌∙◌, Bool, true, Option, none, some, List, [],
  ◌∷◌, All, Bool-cases, inl, inr,
}
use frida_desktop.Prelude.Dict
use frida_desktop.Prelude.Dict.{Dict}
use frida_desktop.Utils.{calculate_fnv1a64}
use frida_desktop.Receipts.Defs.{
  Receipt, Generator, absent, new_generator, save_receipts, generate_receipt, complete_receipt,
  complete_found, fail_receipt, fail_found, verify_receipt, without_hash, rehash, is_hash,
}

-- A call of the generator.
pub data Call (V : Type 0) : Type 0 where
  generated : ℕ → String → String → String → Dict V → Call V
  completed_at : ℕ → String → Dict V → Call V
  failed_at : ℕ → String → String → Call V

module _ {V : Type 0} (json : Receipt V → String)
    (request : String → String → ℕ → Dict V → String) where
  unfoldable pub step : Call V → Generator V → Generator V
  step (generated now id action resource content) s =
      (generate_receipt json request now id action resource content s).1
  step (completed_at now id result) s = (complete_receipt json now id result s).1
  step (failed_at now id error) s = (fail_receipt json now id error s).1

  unfoldable pub run : List (Call V) → Generator V → Generator V
  unfolding step
  run [] s = s
  run (c ∷ cs) s = run cs (step c s)

  -- The receipt verifies by another text with the hash of its own text.
  abbrev pub ByCollision : Receipt V → Type 0
  ByCollision r =
      verify_receipt json r ≡ true
      → (t : String) × (t ≢ json (without_hash r))
        × (calculate_fnv1a64 (json (without_hash r)) ≡ calculate_fnv1a64 t)

  -- The receipt's hash is that of another text than the one that verifying it hashes.
  abbrev Signed : Receipt V → Type 0
  Signed r =
      (t : String) × (t ≢ json (without_hash r))
      × (r.verification_hash ≡ some (calculate_fnv1a64 t))

  abbrev AllSigned : Dict (Receipt V) → Type 0
  AllSigned d = All (λ e. Signed e.1) d

  Signed-ByCollision : (r : Receipt V) → Signed r → ByCollision r
  unfolding verify_receipt
  Signed-ByCollision r (t, other, hashed) ok = (
    t,
    other,
    (eq_iff (calculate_fnv1a64 (json (without_hash r))) (calculate_fnv1a64 t)).0
        (ap (is_hash (calculate_fnv1a64 (json (without_hash r)))) (sym hashed) ∙ ok),
  )

  abbrev FoundSigned : Option (Receipt V) → Type 0
  FoundSigned none = Unit
  FoundSigned (some r) = Signed r

  get-FoundSigned : (id : String) (d : Dict (Receipt V)) → AllSigned d → FoundSigned (Dict.get id d)
  unfolding Dict.get
  get-FoundSigned id [] all = tt
  get-FoundSigned id ((k, q) ∷ d) all = elim (Bool-cases (str_eq k id)) [
    | inl e ↦ simp e all.0
    | inr e ↦ simp e (get-FoundSigned id d all.1)
  ]

  set-AllSigned :
      (id : String) (r : Receipt V) (d : Dict (Receipt V))
      → Signed r
      → AllSigned d
      → AllSigned (Dict.set id r d)
  unfolding Dict.set
  set-AllSigned id r [] h all = (h, tt)
  set-AllSigned id r ((k, q) ∷ d) h all = elim (Bool-cases (str_eq k id)) [
    | inl e ↦ simp e (h, all.1)
    | inr e ↦ simp e (all.0, set-AllSigned id r d h all.1)
  ]

  values-ByCollision : (d : Dict (Receipt V)) → AllSigned d → All ByCollision (Dict.values d)
  unfolding Dict.values
  values-ByCollision [] all = tt
  values-ByCollision ((k, r) ∷ d) all = (Signed-ByCollision r all.0, values-ByCollision d all.1)

  module _
      (other_fields : (r q : Receipt V) (h : String)
        → q.verification_hash ≡ some h
        → json q ≢ json (without_hash r))
      (other_object : (a x : String) (t : ℕ) (d : Dict V) (r : Receipt V)
        → request a x t d ≢ json (without_hash r)) where
    rehash-Signed :
        (r : Receipt V) (h : String) → r.verification_hash ≡ some h → Signed (rehash json r)
    rehash-Signed r h e = (json r, other_fields (rehash json r) r h e, refl)

    complete_found-AllSigned :
        (now : ℕ) (id : String) (result : Dict V) (o : Option (Receipt V)) (s : Generator V)
        → FoundSigned o
        → AllSigned s.receipts
        → AllSigned (complete_found json now id result o s).1.receipts
    unfolding save_receipts
    complete_found-AllSigned now id result none s found all = all
    complete_found-AllSigned now id result (some r) s (t, other, hashed) all =
        set-AllSigned id _ s.receipts (rehash-Signed _ (calculate_fnv1a64 t) hashed) all

    fail_found-AllSigned :
        (now : ℕ) (id error : String) (o : Option (Receipt V)) (s : Generator V)
        → FoundSigned o
        → AllSigned s.receipts
        → AllSigned (fail_found json now id error o s).1.receipts
    unfolding save_receipts
    fail_found-AllSigned now id error none s found all = all
    fail_found-AllSigned now id error (some r) s (t, other, hashed) all =
        set-AllSigned id _ s.receipts (rehash-Signed _ (calculate_fnv1a64 t) hashed) all

    step-AllSigned :
        (c : Call V) (s : Generator V) → AllSigned s.receipts → AllSigned (step c s).receipts
    unfolding step generate_receipt complete_receipt fail_receipt save_receipts
    step-AllSigned (generated now id action resource content) s all =
        let r = (generate_receipt json request now id action resource content s).0 in
        set-AllSigned id r s.receipts
          (request action resource now content, other_object action resource now content r, refl)
          all
    step-AllSigned (completed_at now id result) s all =
        complete_found-AllSigned now id result (Dict.get id s.receipts) s
          (get-FoundSigned id s.receipts all) all
    step-AllSigned (failed_at now id error) s all =
        fail_found-AllSigned now id error (Dict.get id s.receipts) s
          (get-FoundSigned id s.receipts all) all

    run-AllSigned :
        (cs : List (Call V)) (s : Generator V)
        → AllSigned s.receipts
        → AllSigned (run cs s).receipts
    unfolding run
    run-AllSigned [] s all = all
    run-AllSigned (c ∷ cs) s all = run-AllSigned cs (step c s) (step-AllSigned c s all)

    -- Where a JSON text tells a receipt with a hash, and the object that is hashed at first, from a
    -- receipt without a hash, after any calls of a new generator without a file a receipt verifies only
    -- where another text has the hash of its own text.
    pub receipts_run-ByCollision :
        (cs : List (Call V)) (disk_ok : Bool)
        → All ByCollision (Dict.values (run cs (new_generator disk_ok absent)).receipts)
    unfolding new_generator
    receipts_run-ByCollision cs disk_ok =
        values-ByCollision (run cs (new_generator disk_ok absent)).receipts
          (run-AllSigned cs (new_generator disk_ok absent) tt)
