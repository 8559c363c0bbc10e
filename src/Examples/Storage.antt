-- ===== src/Examples/Storage.antt =====
-- The buffer and the file of the bug store, and the ring of memory with its checkpoint. Base64 is
-- played by a code of bytes in unary.
use Prim.Native.Char.{code}
use frida_desktop.Prelude.{
  ℕ, zero, suc, ◌+◌, ◌<◌, ◌≡◌, refl, true, false, none, some, List, [], ◌∷◌, ◌++◌, arith, length,
  String, str_eq, ◌==◌, if◌then◌else◌, ap, ◌∙◌,
}
use frida_desktop.Types.{BugHistoryStore}
use frida_desktop.Utils.{hex, calculate_fnv1a64}
use frida_desktop.Store.Defs.{
  BugStore, absent, parsed, append_event, load_history, create_empty_store, calculate_store_hash,
}
use frida_desktop.Store.Buffer.{last_n, append_all, append_all-last_n}
use frida_desktop.Store.Reload.{reopen, load_history-append_event, load_history_corrupt}
use frida_desktop.Hyper.Defs.{
  Node, HyperMemory, PersistedRecord, CheckpointFile, fresh, append, appended, start, stop, frame,
  restore_record, push_record, ring_of, with_ring, frame_size,
}
use frida_desktop.Hyper.Ring.{IsValid, IsAppended, append-IsAppended}
use frida_desktop.Hyper.Recovery.{Decodes, IsRecovered, start-stop, restore_record_too_large}
use frida_desktop.Examples.Data.{crash_at, summary_text}

abbrev history : BugHistoryStore ℕ
history = record (create_empty_store 5) { events = crash_at 1 ∷ crash_at 2 ∷ [] }

abbrev two_events : BugStore ℕ
two_events = record {
  cached = some history;
  initialized = true;
  max_events = 2;
  file = absent;
  quarantined = [];
  disk_ok = true;
  read_ok = true;
}

append_all-last_n_example :
    (h : BugHistoryStore ℕ) × ((append_all summary_text ((3, crash_at 3) ∷ []) two_events).cached
      ≡ some h)
    × (h.events ≡ last_n 2 (crash_at 1 ∷ crash_at 2 ∷ crash_at 3 ∷ []))
append_all-last_n_example =
    append_all-last_n summary_text ((3, crash_at 3) ∷ []) two_events history refl refl (omega arith)

load_history-append_event_example :
    let s' = append_event summary_text 3 (crash_at 3) two_events in
    let (loaded, s'') = load_history summary_text 4 (reopen summary_text s') in
    (s'.cached ≡ some loaded) × (s''.quarantined ≡ s'.quarantined)
load_history-append_event_example =
    load_history-append_event summary_text 3 4 (crash_at 3) two_events refl refl

abbrev corrupt : BugStore ℕ
corrupt = record two_events { cached = none; initialized = false; file = parsed history }

is_corrupt : str_eq history.integrity_hash (calculate_store_hash summary_text history) ≡ false
unfolding calculate_store_hash create_empty_store calculate_fnv1a64
is_corrupt = refl

load_history_corrupt_example :
    let (loaded, s') = load_history summary_text 9 corrupt in
    (loaded ≡ create_empty_store 9)
    × (s'.file ≡ absent)
    × (s'.quarantined ≡ [] ++ parsed history ∷ [])
load_history_corrupt_example =
    load_history_corrupt summary_text 9 history corrupt refl refl refl refl is_corrupt

abbrev unary : ℕ → String → String
unary zero s = String.◌∷◌ "|" s
unary (suc n) s = String.◌∷◌ "." (unary n s)

abbrev encode : List ℕ → String
encode [] = ""
encode (b ∷ bs) = unary b (encode bs)

abbrev decode : ℕ → String → List ℕ
decode n String.[] = []
decode n (String.◌∷◌ c s) =
    let done = decode 0 s in
    let more = decode (suc n) s in if code c == b'|' then n ∷ done else more

decode-unary : (k n : ℕ) (s : String) → decode k (unary n s) ≡ (k + n) ∷ decode 0 s
decode-unary k zero s = let same : k ≡ k + 0 = omega arith in ap (λ i. i ∷ decode 0 s) same
decode-unary k (suc n) s =
    let same : suc k + n ≡ k + suc n = omega arith in
    decode-unary (suc k) n s ∙ ap (λ i. i ∷ decode 0 s) same

abbrev toy : Node
toy = record {
  sha256 = encode;
  sha256_body = λ b. hex 4 b.created_at;
  to_base64 = encode;
  from_base64 = decode 0;
  utf8_length = λ s. 4;
  characters = λ s. 4;
}

toy-Decodes : Decodes toy
toy-Decodes [] = refl
toy-Decodes (b ∷ bs) =
    let same : 0 + b ≡ b = omega arith in
    decode-unary 0 b (encode bs)
    ∙ ap (λ i. i ∷ decode 0 (encode bs)) same
    ∙ ap (λ xs. b ∷ xs) (toy-Decodes bs)

abbrev ring : HyperMemory
ring = record {
  enabled = true;
  capacity_bytes = 256;
  checkpoint_interval_ms = 0;
  records = frame toy 1 10 "note" (1 ∷ 2 ∷ []) ∷ [];
  used_bytes = 70;
  evictions = 0;
  generation = 1;
  next_sequence = 2;
  running = true;
  recovery_state = fresh;
  checkpoint_timer = false;
  file = CheckpointFile.missing;
  quarantined = [];
}

ring-IsValid : IsValid toy ring
unfolding frame_size
ring-IsValid = record {
  counted = refl;
  bounded = omega arith;
  positive = omega arith;
  chain = (omega arith, omega arith, refl, refl, tt);
}

abbrev grown : HyperMemory
grown = record (with_ring ring (push_record 256 (frame toy 2 20 "note" (3 ∷ [])) (ring_of ring))) {
  next_sequence = 3;
}

grows : append toy 20 "note" (3 ∷ []) ring ≡ appended 2 grown
unfolding append frame_size
grows = refl

append-IsAppended_example : IsAppended toy 20 "note" (3 ∷ []) ring 2 grown
append-IsAppended_example = append-IsAppended toy 20 "note" (3 ∷ []) ring 2 grown ring-IsValid grows

abbrev restarted : HyperMemory
restarted = record ring { records = []; running = false; file = (stop toy 30 ring).file }

start-stop_example : IsRecovered toy toy-Decodes ring (start toy restarted)
start-stop_example =
    start-stop toy toy-Decodes 30 ring restarted ring-IsValid refl refl refl refl refl refl

abbrev large : PersistedRecord
large = record {
  sequence = 2;
  timestamp = 20;
  kind = "note";
  payload_base64 = "||";
  payload_bytes = 2;
  sha256 = "||";
}

is_large : 69 < frame_size toy "note" (length (toy.from_base64 "||"))
unfolding frame_size
is_large = omega arith

restore_record_too_large_example : (restore_record toy 69 large (ring_of ring)).records ≡ []
restore_record_too_large_example = restore_record_too_large toy 69 large (ring_of ring) is_large
