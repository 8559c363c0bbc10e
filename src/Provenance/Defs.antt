-- ===== src/Provenance/Defs.antt =====
-- `ProvenanceTracker` of modules/runtime-learning-engine/provenance-tracker.ts. The time is an argument; `D`
-- is the data of a node.
use frida_desktop.Prelude.{
  ℕ, String, str_eq, Bool, true, false, ◌&&◌, Option, none, some, List, [], ◌∷◌, ◌++◌,
  if◌then◌else◌, filter, any,
}

pub data NodeType : Type 0 where
  bug pattern fix test rollback : NodeType

pub data Relationship : Type 0 where
  originates_from detects fixes validates reverts : Relationship

pub record ProvenanceNode (D : Type 0) : Type 0 where
  pub id : String
  pub kind : NodeType
  pub timestamp : ℕ
  pub content : D
  pub parent_ids : List String

pub record ProvenanceEdge : Type 0 where
  pub from : String
  pub to : String
  pub relationship : Relationship
  pub timestamp : ℕ

pub record ProvenanceStore (D : Type 0) : Type 0 where
  pub nodes : List (ProvenanceNode D)
  pub edges : List ProvenanceEdge
  pub last_updated : ℕ

-- The file provenance.json: not there, no JSON, or a store.
pub data StoreFile (D : Type 0) : Type 0 where
  absent unreadable : StoreFile D
  saved : ProvenanceStore D → StoreFile D

pub record Tracker (D : Type 0) : Type 0 where
  pub store : ProvenanceStore D
  pub file : StoreFile D
  pub disk_ok : Bool

pub record Chain (D : Type 0) : Type 0 where
  pub bug : Option (ProvenanceNode D)
  pub pattern : Option (ProvenanceNode D)
  pub fix : Option (ProvenanceNode D)
  pub tests : List (ProvenanceNode D)
  pub rollback : Option (ProvenanceNode D)

abbrev same_type : NodeType → NodeType → Bool
same_type bug bug = true
same_type pattern pattern = true
same_type fix fix = true
same_type test test = true
same_type rollback rollback = true
same_type _ _ = false

abbrev same_relationship : Relationship → Relationship → Bool
same_relationship originates_from originates_from = true
same_relationship detects detects = true
same_relationship fixes fixes = true
same_relationship validates validates = true
same_relationship reverts reverts = true
same_relationship _ _ = false

abbrev pub edges_from : List String → String → Relationship → ℕ → List ProvenanceEdge
edges_from [] to r now = []
edges_from (p ∷ ps) to r now =
    record { from = p; to = to; relationship = r; timestamp = now } ∷ edges_from ps to r now

abbrev first : {A : Type 0} → List A → Option A
first [] = none
first (x ∷ xs) = some x

abbrev edges_of : String → Relationship → List ProvenanceEdge → List ProvenanceEdge
edges_of id r es = filter (λ e. str_eq e.from id && same_relationship e.relationship r) es

module _ {D : Type 0} where
  abbrev empty_store : ProvenanceStore D
  empty_store = record { nodes = []; edges = []; last_updated = 0 }

  abbrev load_from : StoreFile D → ProvenanceStore D → ProvenanceStore D
  load_from absent s = s
  load_from unreadable s = empty_store
  load_from (saved t) s = t

  -- The constructor, which loads the store.
  unfoldable pub new_tracker : Bool → StoreFile D → Tracker D
  new_tracker disk_ok file = record {
    store = load_from file empty_store;
    file = file;
    disk_ok = disk_ok;
  }

  -- The time is set before the write is tried.
  unfoldable pub save_store : ℕ → Tracker D → Tracker D
  save_store now t =
      let s = record t.store { last_updated = now } in
      record t { store = s; file = if t.disk_ok then saved s else t.file }

  -- A node, and an edge from each of its parents.
  abbrev pub add_node :
      ℕ → String → NodeType → D → List String → Relationship → Tracker D → Tracker D
  add_node now id kind content parents r t = save_store now (record t {
    store = record t.store {
      nodes =
          t.store.nodes
          ++ record {
            id = id;
            kind = kind;
            timestamp = now;
            content = content;
            parent_ids = parents;
          }
            ∷ [];
      edges = t.store.edges ++ edges_from parents id r now;
    };
  })

  unfoldable pub record_bug_capture : ℕ → String → D → Tracker D → Tracker D
  unfolding save_store
  record_bug_capture now id content t = add_node now id bug content [] originates_from t

  unfoldable pub record_pattern_detection : ℕ → String → D → List String → Tracker D → Tracker D
  unfolding save_store
  record_pattern_detection now id content bug_ids t =
      add_node now id pattern content bug_ids detects t

  unfoldable pub record_fix_provenance : ℕ → String → D → String → Tracker D → Tracker D
  unfolding save_store
  record_fix_provenance now id content pattern_id t =
      add_node now id fix content (pattern_id ∷ []) fixes t

  -- `with_verdict` adds the field `passed` to the data.
  unfoldable pub record_test_execution :
      (Bool → D → D) → ℕ → String → D → String → Bool → Tracker D → Tracker D
  unfolding save_store
  record_test_execution with_verdict now id content fix_id passed t =
      add_node now id test (with_verdict passed content) (fix_id ∷ []) validates t

  unfoldable pub record_rollback_provenance : ℕ → String → D → String → Tracker D → Tracker D
  unfolding save_store
  record_rollback_provenance now id content fix_id t =
      add_node now id rollback content (fix_id ∷ []) reverts t

  -- `nodes.find(n => n.id === id && n.type === kind)`
  unfoldable pub find_node : String → NodeType → List (ProvenanceNode D) → Option (ProvenanceNode D)
  find_node id kind ns = first (filter (λ n. str_eq n.id id && same_type n.kind kind) ns)

  abbrev target : NodeType → Option ProvenanceEdge → ProvenanceStore D → Option (ProvenanceNode D)
  target kind none s = none
  target kind (some e) s = find_node e.to kind s.nodes

  -- The node that the first such edge leads to.
  abbrev follow :
      NodeType
      → Relationship
      → Option (ProvenanceNode D)
      → ProvenanceStore D
      → Option (ProvenanceNode D)
  follow kind r none s = none
  follow kind r (some n) s = target kind (first (edges_of n.id r s.edges)) s

  abbrev tests_of : Option (ProvenanceNode D) → ProvenanceStore D → List (ProvenanceNode D)
  tests_of none s = []
  tests_of (some n) s =
      filter (λ x. same_type x.kind test && any (λ p. str_eq p n.id) x.parent_ids) s.nodes

  abbrev chain_of : Option (ProvenanceNode D) → ProvenanceStore D → Chain D
  chain_of none s = record { bug = none; pattern = none; fix = none; tests = []; rollback = none }
  chain_of (some b) s =
      let p = follow pattern detects (some b) s in
      let x = follow fix fixes p s in
      record {
        bug = some b;
        pattern = p;
        fix = x;
        tests = tests_of x s;
        rollback = follow rollback reverts x s;
      }

  unfoldable pub get_full_chain : String → ProvenanceStore D → Chain D
  unfolding find_node
  get_full_chain id s = chain_of (find_node id bug s.nodes) s
