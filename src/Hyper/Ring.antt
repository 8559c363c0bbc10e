-- ===== src/Hyper/Ring.antt =====
-- `append` and its eviction in modules/runtime-learning-engine/hypermemory-runtime.ts.
use frida_desktop.Prelude.{
  ℕ, zero, suc, ◌+◌, ◌-◌, ◌≤◌, ◌<◌, String, ◌≡◌, refl, false, List, [], ◌∷◌, ◌++◌, arith, ltb,
  ltb→lt, length, drop, Bool-cases, inl, inr, ap,
}
use frida_desktop.Hyper.Defs.{
  Node, MemoryRecord, HyperMemory, Ring, evict, push_record, ring_of, with_ring, frame_size, frame,
  append, appended,
}

abbrev pub bytes_of : List MemoryRecord → ℕ
bytes_of [] = 0
bytes_of (r ∷ rs) = r.frame_bytes + bytes_of rs

pub bytes_of-append : (rs qs : List MemoryRecord) → bytes_of (rs ++ qs) ≡ bytes_of rs + bytes_of qs
bytes_of-append [] qs = omega arith
bytes_of-append (r ∷ rs) qs = omega (arith, bytes_of-append rs qs)

-- With room for the new record nothing is evicted.
pub evict_room :
    (capacity required used evicted : ℕ) (rs : List MemoryRecord)
    → used + required ≤ capacity
    → evict capacity required rs used evicted
      ≡ record { records = rs; used = used; evicted = evicted }
unfolding evict
evict_room capacity required used evicted [] h = refl
evict_room capacity required used evicted (r ∷ rs) h =
    let room : ltb capacity (used + required) ≡ false = ground arith in simp room

-- What the eviction leaves: the records but for the oldest `gone`, their bytes counted, room for
-- the new one, and no eviction that was not needed.
pub record IsEvicted (capacity required : ℕ) (rs : List MemoryRecord) (evicted : ℕ) (r : Ring)
    : Type 0 where
  pub gone : ℕ
  pub rest : r.records ≡ drop gone rs
  pub logged : r.evicted ≡ evicted + gone
  pub summed : bytes_of r.records ≡ r.used
  pub fits : r.used + required ≤ capacity
  pub needed : (k : ℕ) → k < gone → capacity < bytes_of (drop k rs) + required

pub evict-IsEvicted :
    (capacity required used evicted : ℕ) (rs : List MemoryRecord)
    → required ≤ capacity
    → bytes_of rs ≡ used
    → IsEvicted capacity required rs evicted (evict capacity required rs used evicted)
unfolding evict
evict-IsEvicted capacity required used evicted [] small sum = record {
  gone = 0;
  rest = refl;
  logged = omega arith;
  summed = sum;
  fits = omega arith;
  needed = λ k h. absurd (omega arith);
}
evict-IsEvicted capacity required used evicted (r ∷ rs) small sum =
    elim (Bool-cases (ltb capacity (used + required))) [
      | inl full ↦
          let h =
            evict-IsEvicted capacity required (used - r.frame_bytes) (evicted + 1) rs small
              (omega arith) in
          simp full (record {
            gone = suc h.gone;
            rest = h.rest;
            logged = omega (arith, h.logged);
            summed = h.summed;
            fits = h.fits;
            needed = first h.gone h.needed (ltb→lt _ _ full);
          })
      | inr room ↦ simp room (record {
        gone = 0;
        rest = refl;
        logged = omega arith;
        summed = sum;
        fits = ground (arith, room);
        needed = λ k h. absurd (omega arith);
      })
    ]
  where
    first :
        (g : ℕ)
        → ((k : ℕ) → k < g → capacity < bytes_of (drop k rs) + required)
        → capacity < used + required
        → (k : ℕ) → k < suc g
        → capacity < bytes_of (drop k (r ∷ rs)) + required
    first g rest now zero h = omega arith
    first g rest now (suc k) h = rest k (omega arith)

module _ (node : Node) where
  -- Sequences that grow from above `low` to below `next`, each record with its hash and size.
  abbrev pub IsChain : ℕ → ℕ → List MemoryRecord → Type 0
  IsChain next low [] = Unit
  IsChain next low (r ∷ rs) =
      (low < r.sequence)
      × (r.sequence < next)
      × (r.sha256 ≡ node.sha256 r.payload)
      × (r.frame_bytes ≡ frame_size node r.kind (length r.payload))
      × IsChain next r.sequence rs

  pub record IsValid (s : HyperMemory) : Type 0 where
    pub counted : bytes_of s.records ≡ s.used_bytes
    pub bounded : s.used_bytes ≤ s.capacity_bytes
    pub positive : 0 < s.next_sequence
    pub chain : IsChain s.next_sequence 0 s.records

  IsChain-drop :
      (next low n : ℕ) (rs : List MemoryRecord) → IsChain next low rs → IsChain next low (drop n rs)
  IsChain-drop next low zero rs h = h
  IsChain-drop next low (suc n) [] h = h
  IsChain-drop next low (suc n) (r ∷ rs) h =
      weaken (drop n rs) (IsChain-drop next r.sequence n rs h.4)
    where
      weaken : (qs : List MemoryRecord) → IsChain next r.sequence qs → IsChain next low qs
      weaken [] c = tt
      weaken (q ∷ qs) c = (omega (arith, h.0, c.0), c.1, c.2, c.3, c.4)

  IsChain-push :
      (next low now : ℕ) (kind : String) (bytes : List ℕ) (rs : List MemoryRecord)
      → low < next
      → IsChain next low rs
      → IsChain (next + 1) low (rs ++ frame node next now kind bytes ∷ [])
  IsChain-push next low now kind bytes [] h c = (h, omega arith, refl, refl, tt)
  IsChain-push next low now kind bytes (r ∷ rs) h c =
      (c.0, omega (arith, c.1), c.2, c.3, IsChain-push next r.sequence now kind bytes rs c.1 c.4)

  abbrev pub appended_ring : ℕ → String → List ℕ → HyperMemory → Ring
  appended_ring now kind bytes s =
      push_record s.capacity_bytes (frame node s.next_sequence now kind bytes) (ring_of s)

  -- What an accepted append did: it answers the next sequence, drops the oldest records that were
  -- in the way and no more, and puts the new record at the end of a valid ring.
  pub record IsAppended (now : ℕ) (kind : String) (bytes : List ℕ) (s : HyperMemory) (n : ℕ)
      (s' : HyperMemory) : Type 0 where
    pub answered : n ≡ s.next_sequence
    pub gone : ℕ
    pub kept : s'.records ≡ drop gone s.records ++ frame node s.next_sequence now kind bytes ∷ []
    pub logged : s'.evictions ≡ s.evictions + gone
    pub needed :
        (k : ℕ)
        → k < gone
        → s.capacity_bytes < bytes_of (drop k s.records) + frame_size node kind (length bytes)
    pub valid : IsValid s'

  accepted :
      (now : ℕ) (kind : String) (bytes : List ℕ) (s : HyperMemory) (n : ℕ) (s' : HyperMemory)
      → append node now kind bytes s ≡ appended n s'
      → (frame_size node kind (length bytes) ≤ s.capacity_bytes)
        × (n ≡ s.next_sequence)
        × (s' ≡ record (with_ring s (appended_ring now kind bytes s)) {
          next_sequence = s.next_sequence + 1;
        })
  unfolding append
  accepted now kind bytes s n s' h = ground arith

  -- An append that is accepted by a valid runtime answers the next sequence number, evicts from the
  -- oldest record on and only while the new one does not fit, counts what it evicted, puts the new
  -- record last, and leaves a valid runtime: the bytes in use are those of the records and within
  -- the capacity, the sequences grow, and each record carries its hash.
  pub append-IsAppended :
      (now : ℕ) (kind : String) (bytes : List ℕ) (s : HyperMemory) (n : ℕ) (s' : HyperMemory)
      → IsValid s
      → append node now kind bytes s ≡ appended n s'
      → IsAppended now kind bytes s n s'
  append-IsAppended now kind bytes s n s' v h =
      let (small, same, shape) = accepted now kind bytes s n s' h in
      let required = frame_size node kind (length bytes) in
      let e =
        evict-IsEvicted s.capacity_bytes required s.used_bytes s.evictions s.records small
          v.counted in
      rw shape (
        unfold push_record in
        record {
          answered = same;
          gone = e.gone;
          kept = ap (λ rs. rs ++ frame node s.next_sequence now kind bytes ∷ []) e.rest;
          logged = e.logged;
          needed = e.needed;
          valid = record {
            counted = omega (
              arith,
              bytes_of-append _ (frame node s.next_sequence now kind bytes ∷ []),
              e.summed,
            );
            bounded = e.fits;
            positive = omega arith;
            chain = rw (e.rest) (
                IsChain-push s.next_sequence 0 now kind bytes (drop e.gone s.records) v.positive
                  (IsChain-drop s.next_sequence 0 e.gone s.records v.chain));
          };
        })
