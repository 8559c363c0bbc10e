-- ===== src/Provenance/Linked.antt =====
-- The edges of the provenance over sequences of its recordings.
use frida_desktop.Prelude.{
  ℕ, String, str_eq, eq_refl, ◌≡◌, refl, Bool, true, ◌&&◌, ◌||◌, List, [], ◌∷◌, ◌++◌, any, All,
  All-append, arith,
}
use frida_desktop.Provenance.Defs.{
  ProvenanceNode, ProvenanceEdge, Tracker, NodeType, Relationship, bug, pattern, fix, test,
  rollback, originates_from, detects, fixes, validates, reverts, edges_from, add_node, save_store,
  absent, new_tracker, record_bug_capture, record_pattern_detection, record_fix_provenance,
  record_test_execution, record_rollback_provenance,
}

-- A recording, with the parents where there are several.
pub data Recording (D : Type 0) : Type 0 where
  bug_captured : ℕ → String → D → Recording D
  pattern_found : ℕ → String → D → List String → Recording D
  fix_made : ℕ → String → D → String → Recording D
  tested : ℕ → String → D → String → Bool → Recording D
  rolled_back : ℕ → String → D → String → Recording D

any-append :
    {A : Type 0} (p : A → Bool) (xs ys : List A) → any p (xs ++ ys) ≡ (any p xs || any p ys)
any-append p [] ys = refl
any-append p (x ∷ xs) ys = ground (arith, any-append p xs ys)

-- The id is among the parents.
IsParent : List String → String → Type 0
IsParent ps p = any (λ q. str_eq q p) ps ≡ true

cons-IsParent :
    (q : String) (qs ps : List String) → All (IsParent qs) ps → All (IsParent (q ∷ qs)) ps
unfolding IsParent
cons-IsParent q qs [] h = tt
cons-IsParent q qs (p ∷ ps) h = (ground (arith, h.0), cons-IsParent q qs ps h.1)

refl-IsParent : (ps : List String) → All (IsParent ps) ps
unfolding IsParent
refl-IsParent [] = tt
refl-IsParent (p ∷ ps) = (simp (eq_refl p) refl, cons-IsParent p ps ps (refl-IsParent ps))

module _ {D : Type 0} where
  -- The edge leads from a parent of the node that it leads to.
  abbrev pub IsBorne : List (ProvenanceNode D) → ProvenanceEdge → Type 0
  IsBorne ns e = any (λ n. str_eq n.id e.to && any (λ p. str_eq p e.from) n.parent_ids) ns ≡ true

  grown-IsBorne :
      (ns ms : List (ProvenanceNode D)) (es : List ProvenanceEdge)
      → All (IsBorne ns) es
      → All (IsBorne (ns ++ ms)) es
  grown-IsBorne ns ms [] h = tt
  grown-IsBorne ns ms (e ∷ es) h = (
    ground (
      arith,
      h.0,
      any-append (λ n. str_eq n.id e.to && any (λ p. str_eq p e.from) n.parent_ids) ns ms,
    ),
    grown-IsBorne ns ms es h.1,
  )

  edges_from-IsBorne :
      (now : ℕ) (n : ProvenanceNode D) (r : Relationship) (ns : List (ProvenanceNode D))
      (ps : List String)
      → All (IsParent n.parent_ids) ps
      → All (IsBorne (ns ++ n ∷ [])) (edges_from ps n.id r now)
  unfolding IsParent
  edges_from-IsBorne now n r ns [] h = tt
  edges_from-IsBorne now n r ns (p ∷ ps) h = (
    ground (
      arith,
      h.0,
      eq_refl n.id,
      any-append (λ m. str_eq m.id n.id && any (λ q. str_eq q p) m.parent_ids) ns (n ∷ []),
    ),
    edges_from-IsBorne now n r ns ps h.1,
  )

  -- Every edge of the store is borne out by a node.
  abbrev pub Linked : Tracker D → Type 0
  Linked t = All (IsBorne t.store.nodes) t.store.edges

  add_node-Linked :
      (now : ℕ) (id : String) (kind : NodeType) (content : D) (parents : List String)
      (r : Relationship) (t : Tracker D)
      → Linked t
      → Linked (add_node now id kind content parents r t)
  unfolding save_store
  add_node-Linked now id kind content parents r t h =
      let n : ProvenanceNode D = record {
        id = id;
        kind = kind;
        timestamp = now;
        content = content;
        parent_ids = parents;
      } in
      All-append (IsBorne (t.store.nodes ++ n ∷ [])) t.store.edges (edges_from parents id r now)
        (grown-IsBorne t.store.nodes (n ∷ []) t.store.edges h)
        (edges_from-IsBorne now n r t.store.nodes parents (refl-IsParent parents))

  module _ (with_verdict : Bool → D → D) where
    unfoldable pub step : Recording D → Tracker D → Tracker D
    step (bug_captured now id d) t = record_bug_capture now id d t
    step (pattern_found now id d ids) t = record_pattern_detection now id d ids t
    step (fix_made now id d p) t = record_fix_provenance now id d p t
    step (tested now id d x ok) t = record_test_execution with_verdict now id d x ok t
    step (rolled_back now id d x) t = record_rollback_provenance now id d x t

    unfoldable pub run : List (Recording D) → Tracker D → Tracker D
    unfolding step
    run [] t = t
    run (x ∷ xs) t = run xs (step x t)

    step-Linked : (x : Recording D) (t : Tracker D) → Linked t → Linked (step x t)
    unfolding step record_bug_capture record_pattern_detection record_fix_provenance
        record_test_execution record_rollback_provenance
    step-Linked (bug_captured now id d) t h = add_node-Linked now id bug d [] originates_from t h
    step-Linked (pattern_found now id d ids) t h = add_node-Linked now id pattern d ids detects t h
    step-Linked (fix_made now id d p) t h = add_node-Linked now id fix d (p ∷ []) fixes t h
    step-Linked (tested now id d x ok) t h =
        add_node-Linked now id test (with_verdict ok d) (x ∷ []) validates t h
    step-Linked (rolled_back now id d x) t h =
        add_node-Linked now id rollback d (x ∷ []) reverts t h

    run-Linked : (xs : List (Recording D)) (t : Tracker D) → Linked t → Linked (run xs t)
    unfolding run
    run-Linked [] t h = h
    run-Linked (x ∷ xs) t h = run-Linked xs (step x t) (step-Linked x t h)

    -- After any recordings of a new tracker without a file, every edge leads to a node of the store
    -- that names the edge's start as its parent.
    pub provenance_run-Linked :
        (xs : List (Recording D)) (disk_ok : Bool) → Linked (run xs (new_tracker disk_ok absent))
    unfolding new_tracker
    provenance_run-Linked xs disk_ok = run-Linked xs (new_tracker disk_ok absent) tt
