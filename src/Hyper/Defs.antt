-- ===== src/Hyper/Defs.antt =====
-- `HyperMemoryRuntime`. A payload is its bytes, whose base64 text the checkpoint file holds; SHA-256,
-- base64 and the JSON text of a snapshot are parameters. The checkpoint file is what `JSON.parse`
-- makes of it. A kind is its characters, already trimmed, with its length in UTF-8.
use frida_desktop.Prelude.{
  ℕ, ◌+◌, ◌-◌, String, Bool, true, false, not, ◌&&◌, ◌||◌, Option, none, some, List, [], ◌∷◌, ◌++◌,
  map, ltb, ◌==◌, if◌then◌else◌, str_eq, length, slice_last,
}

pub data RecoveryState : Type 0 where
  fresh restored quarantined_corrupt disabled : RecoveryState

pub record MemoryRecord : Type 0 where
  pub sequence : ℕ
  pub timestamp : ℕ
  pub kind : String
  pub payload : List ℕ
  pub sha256 : String
  pub frame_bytes : ℕ

pub record PersistedRecord : Type 0 where
  pub sequence : ℕ
  pub timestamp : ℕ
  pub kind : String
  pub payload_base64 : String
  pub payload_bytes : ℕ
  pub sha256 : String

pub record SnapshotBody : Type 0 where
  pub schema : String
  pub generation : ℕ
  pub created_at : ℕ
  pub capacity_bytes : ℕ
  pub used_bytes : ℕ
  pub evictions : ℕ
  pub next_sequence : ℕ
  pub records : List PersistedRecord

pub record PersistedSnapshot : Type 0 where
  pub body : SnapshotBody
  pub integrity_sha256 : String

-- The checkpoint file: missing, no JSON of a snapshot's shape, or a snapshot.
pub data CheckpointFile : Type 0 where
  missing unreadable : CheckpointFile
  snapshot : PersistedSnapshot → CheckpointFile

-- What the runtime takes from Node.
pub record Node : Type 0 where
  pub sha256 : List ℕ → String
  pub sha256_body : SnapshotBody → String
  pub to_base64 : List ℕ → String
  pub from_base64 : String → List ℕ
  pub utf8_length : String → ℕ
  pub characters : String → ℕ

pub record HyperMemory : Type 0 where
  pub enabled : Bool
  pub capacity_bytes : ℕ
  pub checkpoint_interval_ms : ℕ
  pub records : List MemoryRecord
  pub used_bytes : ℕ
  pub evictions : ℕ
  pub generation : ℕ
  pub next_sequence : ℕ
  pub running : Bool
  pub recovery_state : RecoveryState
  pub checkpoint_timer : Bool
  pub file : CheckpointFile
  pub quarantined : List CheckpointFile

abbrev pub schema_name : String
schema_name = "rafaelia.frida.hypermemory-runtime/v1"

abbrev pub frame_overhead_bytes : ℕ
frame_overhead_bytes = 64

pub data AppendError : Type 0 where
  is_disabled not_started bad_kind too_large : AppendError

pub data Appended : Type 0 where
  appended : ℕ → HyperMemory → Appended
  refused : AppendError → Appended

-- The constructor, with its checks; the path is not modelled. `none` is an exception.
unfoldable pub new_hyper_memory : Bool → ℕ → ℕ → CheckpointFile → Option HyperMemory
new_hyper_memory enabled capacity interval file =
    if ltb capacity 256
    then none
    else some (record {
      enabled = enabled;
      capacity_bytes = capacity;
      checkpoint_interval_ms = interval;
      records = [];
      used_bytes = 0;
      evictions = 0;
      generation = 1;
      next_sequence = 1;
      running = false;
      recovery_state = fresh;
      checkpoint_timer = false;
      file = file;
      quarantined = [];
    })

-- The part of the state that the eviction loop changes.
pub record Ring : Type 0 where
  pub records : List MemoryRecord
  pub used : ℕ
  pub evicted : ℕ

-- `while (records.length > 0 && usedBytes + requiredBytes > capacityBytes)`, on the records.
unfoldable pub evict : ℕ → ℕ → List MemoryRecord → ℕ → ℕ → Ring
evict capacity required [] used evicted = record { records = []; used = used; evicted = evicted }
evict capacity required (r ∷ rs) used evicted =
    let fewer = evict capacity required rs (used - r.frame_bytes) (evicted + 1) in
    if ltb capacity (used + required)
    then fewer
    else record { records = r ∷ rs; used = used; evicted = evicted }

unfoldable pub push_record : ℕ → MemoryRecord → Ring → Ring
unfolding evict
push_record capacity r s =
    let freed = evict capacity r.frame_bytes s.records s.used s.evicted in
    record freed { records = freed.records ++ r ∷ []; used = freed.used + r.frame_bytes }

abbrev pub ring_of : HyperMemory → Ring
ring_of s = record { records = s.records; used = s.used_bytes; evicted = s.evictions }

abbrev pub with_ring : HyperMemory → Ring → HyperMemory
with_ring s r = record s { records = r.records; used_bytes = r.used; evictions = r.evicted }

module _ (node : Node) where
  unfoldable pub frame_size : String → ℕ → ℕ
  frame_size kind payload_bytes = frame_overhead_bytes + node.utf8_length kind + payload_bytes

  abbrev pub frame : ℕ → ℕ → String → List ℕ → MemoryRecord
  frame sequence now kind bytes = record {
    sequence = sequence;
    timestamp = now;
    kind = kind;
    payload = bytes;
    sha256 = node.sha256 bytes;
    frame_bytes = frame_size kind (length bytes);
  }

  unfoldable pub append : ℕ → String → List ℕ → HyperMemory → Appended
  append now kind bytes s =
      if not s.enabled
      then refused is_disabled
      else if not s.running
      then refused not_started
      else if node.characters kind == 0 || ltb 128 (node.characters kind)
      then refused bad_kind
      else if ltb s.capacity_bytes (frame_size kind (length bytes))
      then refused too_large
      else appended s.next_sequence
          (record (with_ring s
            (push_record s.capacity_bytes (frame s.next_sequence now kind bytes) (ring_of s))) {
              next_sequence = s.next_sequence + 1;
            })

  unfoldable pub persist : MemoryRecord → PersistedRecord
  persist r = record {
    sequence = r.sequence;
    timestamp = r.timestamp;
    kind = r.kind;
    payload_base64 = node.to_base64 r.payload;
    payload_bytes = length r.payload;
    sha256 = r.sha256;
  }

  unfoldable pub snapshot_body : ℕ → HyperMemory → SnapshotBody
  unfolding persist
  snapshot_body now s = record {
    schema = schema_name;
    generation = s.generation;
    created_at = now;
    capacity_bytes = s.capacity_bytes;
    used_bytes = s.used_bytes;
    evictions = s.evictions;
    next_sequence = s.next_sequence;
    records = map persist s.records;
  }

  -- The file is replaced as a whole, by a rename; writes are taken to succeed.
  unfoldable pub checkpoint : ℕ → HyperMemory → HyperMemory
  checkpoint now s =
      let body = snapshot_body now s in
      if s.enabled && s.running
      then record s {
        file = snapshot (record { body = body; integrity_sha256 = node.sha256_body body });
      }
      else s

  -- The loop over the records of `validateSnapshot`, after the last sequence seen.
  unfoldable pub valid_records : ℕ → List PersistedRecord → Bool
  valid_records previous [] = true
  valid_records previous (r ∷ rs) =
      ltb previous r.sequence
      && (length (node.from_base64 r.payload_base64) == r.payload_bytes)
      && str_eq (node.sha256 (node.from_base64 r.payload_base64)) r.sha256
      && valid_records r.sequence rs

  unfoldable pub validate_snapshot : PersistedSnapshot → Bool
  validate_snapshot p =
      str_eq p.body.schema schema_name
      && str_eq p.integrity_sha256 (node.sha256_body p.body)
      && ltb 0 p.body.next_sequence
      && valid_records 0 p.body.records

  -- One record of the loop of `restoreCheckpoint`: room is made first, then the size is tested.
  unfoldable pub restore_record : ℕ → PersistedRecord → Ring → Ring
  restore_record capacity p s =
      let payload = node.from_base64 p.payload_base64 in
      let required = frame_size p.kind (length payload) in
      let freed = evict capacity required s.records s.used s.evicted in
      if ltb capacity required then freed else record freed {
        records =
            freed.records
            ++ record {
              sequence = p.sequence;
              timestamp = p.timestamp;
              kind = p.kind;
              payload = payload;
              sha256 = p.sha256;
              frame_bytes = required;
            }
              ∷ [];
        used = freed.used + required;
      }

  unfoldable pub restore_records : ℕ → List PersistedRecord → Ring → Ring
  restore_records capacity [] s = s
  restore_records capacity (p ∷ ps) s = restore_records capacity ps (restore_record capacity p s)

  abbrev pub restored_from : SnapshotBody → HyperMemory → HyperMemory
  restored_from body s =
      record (with_ring s (
        restore_records s.capacity_bytes body.records
          (record { records = []; used = 0; evicted = body.evictions }))) {
            generation = body.generation + 1;
            next_sequence = body.next_sequence;
            recovery_state = restored;
          }

  abbrev pub quarantine : HyperMemory → HyperMemory
  quarantine s = record s {
    records = [];
    used_bytes = 0;
    evictions = 0;
    generation = 1;
    next_sequence = 1;
    recovery_state = quarantined_corrupt;
    file = missing;
    quarantined = s.quarantined ++ s.file ∷ [];
  }

  unfoldable pub restore_checkpoint : CheckpointFile → HyperMemory → HyperMemory
  restore_checkpoint missing s = record s { recovery_state = fresh }
  restore_checkpoint unreadable s = quarantine s
  restore_checkpoint (snapshot p) s =
      if validate_snapshot p then restored_from p.body s else quarantine s

  unfoldable pub start : HyperMemory → HyperMemory
  start s =
      if s.running
      then s
      else if not s.enabled
      then record s { recovery_state = disabled }
      else record (restore_checkpoint s.file s) {
        running = true;
        checkpoint_timer = ltb 0 s.checkpoint_interval_ms;
      }

  unfoldable pub stop : ℕ → HyperMemory → HyperMemory
  stop now s =
      record (if s.running then checkpoint now (record s { checkpoint_timer = false }) else s) {
        checkpoint_timer = false;
        running = false;
      }

-- `readRecords`: `slice(-limit)`, so a limit of 0 reads all of them.
unfoldable pub read_records : ℕ → HyperMemory → List MemoryRecord
read_records limit s = slice_last limit s.records
