-- ===== src/Hyper/Recovery.antt =====
-- `checkpoint`, `stop` and `start` of modules/runtime-learning-engine/hypermemory-runtime.ts.
use frida_desktop.Prelude.{
  ℕ, ◌+◌, ◌-◌, ◌≤◌, ◌<◌, ◌≡◌, refl, true, false, List, [], ◌∷◌, ◌++◌, map, arith, ltb, ==_iff,
  eq_refl, length, ap, append_assoc, append-nil, ◌∙◌,
}
use frida_desktop.Hyper.Defs.{
  Node, MemoryRecord, PersistedRecord, HyperMemory, Ring, evict, frame_size, persist, snapshot_body,
  checkpoint, valid_records, validate_snapshot, restore_record, restore_records, restored_from,
  restore_checkpoint, start, stop, snapshot, restored, PersistedSnapshot,
}
use frida_desktop.Hyper.Ring.{bytes_of, evict_room, IsChain, IsValid}

-- Base64 text decodes to the bytes that it was made from.
abbrev pub Decodes : Node → Type 0
Decodes node = (bytes : List ℕ) → node.from_base64 (node.to_base64 bytes) ≡ bytes

evicts_all :
    (capacity required : ℕ) (rs : List MemoryRecord) (used evicted : ℕ)
    → capacity < required
    → (evict capacity required rs used evicted).records ≡ []
unfolding evict
evicts_all capacity required [] used evicted h = refl
evicts_all capacity required (r ∷ rs) used evicted h =
    let full : ltb capacity (used + required) ≡ true = ground arith in
    simp full (evicts_all capacity required rs (used - r.frame_bytes) (evicted + 1) h)

module _ (node : Node) (decodes : Decodes node) where
  restore_record_fits :
      (capacity : ℕ) (r : MemoryRecord) (acc : List MemoryRecord) (used evicted : ℕ)
      → r.frame_bytes ≡ frame_size node r.kind (length r.payload)
      → used + r.frame_bytes ≤ capacity
      → restore_record node capacity
          (persist node r)
          (record { records = acc; used = used; evicted = evicted })
        ≡ record { records = acc ++ r ∷ []; used = used + r.frame_bytes; evicted = evicted }
  unfolding restore_record persist
  restore_record_fits capacity r acc used evicted sized fits =
      let small : ltb capacity r.frame_bytes ≡ false = ground arith in
      rw (decodes r.payload)
        (simp (← sized, evict_room capacity r.frame_bytes used evicted acc fits, small))

  -- Records that fit together are all restored, in their order.
  restore_records_all :
      (capacity next low : ℕ) (rs acc : List MemoryRecord) (used evicted : ℕ)
      → IsChain node next low rs
      → used + bytes_of rs ≤ capacity
      → restore_records node capacity
          (map (persist node) rs)
          (record { records = acc; used = used; evicted = evicted })
        ≡ record { records = acc ++ rs; used = used + bytes_of rs; evicted = evicted }
  unfolding restore_records
  restore_records_all capacity next low [] acc used evicted c fits =
      let none_used : used + 0 ≡ used = omega arith in simp (append-nil, none_used)
  restore_records_all capacity next low (r ∷ rs) acc used evicted c fits =
      let regroup : used + r.frame_bytes + bytes_of rs ≡ used + (r.frame_bytes + bytes_of rs) =
        omega arith in
      ap (restore_records node capacity (map (persist node) rs))
        (restore_record_fits capacity r acc used evicted c.3 (omega arith))
      ∙ restore_records_all capacity next r.sequence rs (acc ++ r ∷ []) (used + r.frame_bytes)
          evicted c.4 (omega arith)
      ∙ simp (append_assoc, regroup)

  valid_records_persisted :
      (next low : ℕ) (rs : List MemoryRecord)
      → IsChain node next low rs
      → valid_records node low (map (persist node) rs) ≡ true
  unfolding valid_records persist
  valid_records_persisted next low [] c = refl
  valid_records_persisted next low (r ∷ rs) c =
      let grows : ltb low r.sequence ≡ true = ground (arith, c) in
      simp (
        decodes,
        grows,
        (==_iff (length r.payload) (length r.payload)).1 refl,
        c.2,
        eq_refl,
        valid_records_persisted next r.sequence rs c.4,
      )

  -- What a start finds of what the stop had in memory.
  pub record IsRecovered (s s' : HyperMemory) : Type 0 where
    pub records_back : s'.records ≡ s.records
    pub used_back : s'.used_bytes ≡ s.used_bytes
    pub evictions_back : s'.evictions ≡ s.evictions
    pub sequence_back : s'.next_sequence ≡ s.next_sequence
    pub next_generation : s'.generation ≡ s.generation + 1
    pub state_restored : s'.recovery_state ≡ restored
    pub runs : s'.running ≡ true

  abbrev saved : ℕ → HyperMemory → PersistedSnapshot
  saved now s = record {
    body = snapshot_body node now s;
    integrity_sha256 = node.sha256_body (snapshot_body node now s);
  }

  saved-validate_snapshot :
      (now : ℕ) (s : HyperMemory) → IsValid node s → validate_snapshot node (saved now s) ≡ true
  unfolding validate_snapshot snapshot_body
  saved-validate_snapshot now s v =
      let positive : ltb 0 s.next_sequence ≡ true = ground (arith, v.positive) in
      simp (eq_refl, positive, valid_records_persisted s.next_sequence 0 s.records v.chain)

  -- A running, valid runtime that is stopped and started again, also by another process over the
  -- same file and with any memory of its own, has the same records, bytes, evictions and next
  -- sequence, is one generation on, and reports that it was restored.
  pub start-stop :
      (now : ℕ) (s t : HyperMemory)
      → IsValid node s
      → s.enabled ≡ true
      → s.running ≡ true
      → t.enabled ≡ true
      → t.running ≡ false
      → t.capacity_bytes ≡ s.capacity_bytes
      → t.file ≡ (stop node now s).file
      → IsRecovered s (start node t)
  start-stop now s t v on runs t_on t_idle same there =
      let body = snapshot_body node now s in
      let written : (stop node now s).file ≡ snapshot (saved now s) =
        unfold stop checkpoint snapshot_body in simp (runs, on) in
      let started : start node t ≡ record (restore_checkpoint node t.file t) {
        running = true;
        checkpoint_timer = ltb 0 t.checkpoint_interval_ms;
      } =
        unfold start in simp (t_idle, t_on) in
      let read : restore_checkpoint node t.file t ≡ restored_from node body t =
        ap (λ f. restore_checkpoint node f t) (there ∙ written)
        ∙ (unfold restore_checkpoint in simp (saved-validate_snapshot now s v)) in
      let ring =
        restore_records_all t.capacity_bytes s.next_sequence 0 s.records [] 0 s.evictions v.chain
          (omega (arith, v.counted, v.bounded, same)) in
      rw started (
        rw read (
          unfold snapshot_body in
          record {
            records_back = ap (λ r. r.records) ring;
            used_back = ap (λ r. r.used) ring ∙ omega (arith, v.counted);
            evictions_back = ap (λ r. r.evicted) ring;
            sequence_back = refl;
            next_generation = refl;
            state_restored = refl;
            runs = refl;
          }))

-- A stored record that is larger than the capacity is not restored, and every record that was
-- restored before it is evicted all the same.
pub restore_record_too_large :
    (node : Node) (capacity : ℕ) (p : PersistedRecord) (s : Ring)
    → capacity < frame_size node p.kind (length (node.from_base64 p.payload_base64))
    → (restore_record node capacity p s).records ≡ []
unfolding restore_record
restore_record_too_large node capacity p s large =
    let big : ltb capacity (frame_size node p.kind (length (node.from_base64 p.payload_base64)))
        ≡ true =
      ground arith in
    simp big (evicts_all capacity _ s.records s.used s.evicted large)
