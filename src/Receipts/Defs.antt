-- ===== src/Receipts/Defs.antt =====
-- `ReceiptGenerator` of modules/runtime-learning-engine/receipt-generator.ts. Times and generated ids are
-- arguments. `json` is JSON.stringify of a receipt, and `request` of the object with the action, the
-- resource, the time and the data; a field that is `none` is undefined or was deleted.
use frida_desktop.Prelude.{
  ℕ, ◌+◌, ◌-◌, String, str_eq, Bool, true, false, not, Option, none, some, List, [], ◌∷◌, ltb, leb,
  ◌==◌, if◌then◌else◌, filter, length, map,
}
use frida_desktop.Prelude.Dict
use frida_desktop.Prelude.Dict.{Dict}
use frida_desktop.Floats.{Floats}
use frida_desktop.Utils.{calculate_fnv1a64}

pub data ReceiptStatus : Type 0 where
  pending completed failed : ReceiptStatus

pub record Receipt (V : Type 0) : Type 0 where
  pub receipt_id : String
  pub timestamp : ℕ
  pub action : String
  pub resource_id : String
  pub status : ReceiptStatus
  pub content : Dict V
  pub verification_hash : Option String
  pub completion_time : Option ℕ
  pub error : Option String

-- The file receipts.json: not there, no JSON, or receipts.
pub data ReceiptsFile (V : Type 0) : Type 0 where
  absent unreadable : ReceiptsFile V
  saved : List (Receipt V) → ReceiptsFile V

pub record Generator (V : Type 0) : Type 0 where
  pub receipts : Dict (Receipt V)
  pub file : ReceiptsFile V
  pub disk_ok : Bool

pub record ReceiptFilter : Type 0 where
  pub action : Option String
  pub status : Option ReceiptStatus
  pub max_age : Option ℕ

pub record ReceiptStats (N : Type 0) : Type 0 where
  pub total : ℕ
  pub completed : ℕ
  pub failed : ℕ
  pub pending : ℕ
  pub success_rate : N

pub record Verified : Type 0 where
  pub total : ℕ
  pub valid : ℕ
  pub invalid : ℕ
  pub invalid_receipts : List String

abbrev same_status : ReceiptStatus → ReceiptStatus → Bool
same_status pending pending = true
same_status completed completed = true
same_status failed failed = true
same_status _ _ = false

-- `{ ...d, ...e }`
abbrev merge : {V : Type 0} → Dict V → Dict V → Dict V
merge d [] = d
merge d ((k, v) ∷ e) = merge (Dict.set k v d) e

abbrev pub is_hash : String → Option String → Bool
is_hash h none = false
is_hash h (some g) = str_eq h g

module _ {V : Type 0} where
  unfoldable pub load_each : List (Receipt V) → Dict (Receipt V) → Dict (Receipt V)
  load_each [] d = d
  load_each (r ∷ rs) d = load_each rs (Dict.set r.receipt_id r d)

  abbrev load_receipts : ReceiptsFile V → Dict (Receipt V)
  load_receipts (saved rs) = load_each rs []
  load_receipts _ = []

  -- The constructor, which loads the receipts.
  unfoldable pub new_generator : Bool → ReceiptsFile V → Generator V
  unfolding load_each
  new_generator disk_ok file = record {
    receipts = load_receipts file;
    file = file;
    disk_ok = disk_ok;
  }

  unfoldable pub save_receipts : Generator V → Generator V
  unfolding Dict.values
  save_receipts s = record s { file = if s.disk_ok then saved (Dict.values s.receipts) else s.file }

  abbrev store_receipt : String → Receipt V → Generator V → Generator V
  store_receipt id r s = save_receipts (record s { receipts = Dict.set id r s.receipts })

  abbrev pub without_hash : Receipt V → Receipt V
  without_hash r = record r { verification_hash = none }

module _ {V : Type 0} (json : Receipt V → String) where
  -- The hash of the receipt as it is, its old hash included.
  abbrev pub rehash : Receipt V → Receipt V
  rehash r = record r { verification_hash = some (calculate_fnv1a64 (json r)) }

  unfoldable pub generate_receipt :
      (String → String → ℕ → Dict V → String)
      → ℕ
      → String
      → String
      → String
      → Dict V
      → Generator V
      → Receipt V × Generator V
  unfolding save_receipts
  generate_receipt request now id action resource content s =
      let r : Receipt V = record {
        receipt_id = id;
        timestamp = now;
        action = action;
        resource_id = resource;
        status = pending;
        content = content;
        verification_hash = some (calculate_fnv1a64 (request action resource now content));
        completion_time = none;
        error = none;
      } in
      (r, store_receipt id r s)

  abbrev pub complete_found :
      ℕ → String → Dict V → Option (Receipt V) → Generator V → Bool × Generator V
  complete_found now id result none s = (false, s)
  complete_found now id result (some r) s = (
    true,
    store_receipt id
        (rehash (record r {
          status = completed;
          completion_time = some now;
          content = merge r.content result;
        }))
        s,
  )

  unfoldable pub complete_receipt : ℕ → String → Dict V → Generator V → Bool × Generator V
  unfolding Dict.get
  complete_receipt now id result s = complete_found now id result (Dict.get id s.receipts) s

  abbrev pub fail_found :
      ℕ → String → String → Option (Receipt V) → Generator V → Bool × Generator V
  fail_found now id error none s = (false, s)
  fail_found now id error (some r) s = (
    true,
    store_receipt id
        (rehash (record r { status = failed; completion_time = some now; error = some error })) s,
  )

  unfoldable pub fail_receipt : ℕ → String → String → Generator V → Bool × Generator V
  unfolding Dict.get
  fail_receipt now id error s = fail_found now id error (Dict.get id s.receipts) s

  unfoldable pub verify_receipt : Receipt V → Bool
  verify_receipt r = is_hash (calculate_fnv1a64 (json (without_hash r))) r.verification_hash

  unfoldable pub verify_all_receipts : Generator V → Verified
  unfolding verify_receipt Dict.values
  verify_all_receipts s =
      let all = Dict.values s.receipts in
      let bad = map (λ r. r.receipt_id) (filter (λ r. not (verify_receipt r)) all) in
      record {
        total = length all;
        valid = length all - length bad;
        invalid = length bad;
        invalid_receipts = bad;
      }

module _ {V N : Type 0} (f : Floats N) where
  abbrev with_status : ReceiptStatus → List (Receipt V) → ℕ
  with_status x rs = length (filter (λ r. same_status r.status x) rs)

  unfoldable pub get_receipt_stats : Generator V → ReceiptStats N
  unfolding Dict.values
  get_receipt_stats s =
      let all = Dict.values s.receipts in
      let done = with_status completed all in
      let lost = with_status failed all in
      record {
        total = length all;
        completed = done;
        failed = lost;
        pending = with_status pending all;
        success_rate =
            if ltb 0 (length all)
            then f.mul (f.div (f.of_nat done) (f.of_nat (done + lost))) (f.of_nat 100)
            else f.of_nat 0;
      }

abbrev insert_newer : {V : Type 0} → Receipt V → List (Receipt V) → List (Receipt V)
insert_newer r [] = r ∷ []
insert_newer r (q ∷ qs) =
    let rest = insert_newer r qs in if leb q.timestamp r.timestamp then r ∷ q ∷ qs else q ∷ rest

-- A stable sort with the newest first.
abbrev sort_newest : {V : Type 0} → List (Receipt V) → List (Receipt V)
sort_newest [] = []
sort_newest (r ∷ rs) = insert_newer r (sort_newest rs)

abbrev of_action : {V : Type 0} → Option String → List (Receipt V) → List (Receipt V)
of_action none rs = rs
of_action (some a) rs = if str_eq a "" then rs else filter (λ r. str_eq r.action a) rs

abbrev of_status : {V : Type 0} → Option ReceiptStatus → List (Receipt V) → List (Receipt V)
of_status none rs = rs
of_status (some x) rs = filter (λ r. same_status r.status x) rs

-- A greatest age of 0 is none.
abbrev of_age : {V : Type 0} → ℕ → Option ℕ → List (Receipt V) → List (Receipt V)
of_age now none rs = rs
of_age now (some age) rs = if age == 0 then rs else filter (λ r. ltb now (r.timestamp + age)) rs

unfoldable pub get_all_receipts : {V : Type 0} → ℕ → ReceiptFilter → Generator V → List (Receipt V)
unfolding Dict.values
get_all_receipts now q s =
    sort_newest
      (of_age now q.max_age (of_status q.status (of_action q.action (Dict.values s.receipts))))
