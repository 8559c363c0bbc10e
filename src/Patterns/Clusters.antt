-- ===== src/Patterns/Clusters.antt =====
-- `detectBugCluster` of modules/runtime-learning-engine/utils.ts against the partition of the
-- events by their keys.
use frida_desktop.Prelude.{
  String, Bool, true, false, ◌≡◌, refl, sym, ap, ◌∙◌, some, List, [], ◌∷◌, ◌++◌, append_assoc,
  append-nil, filter, if◌then◌else◌, str_eq, eq_iff,
}
use frida_desktop.Prelude.Dict
use frida_desktop.Prelude.Dict.{Dict, dict_laws}
use frida_desktop.Types.{BugEvent}
use frida_desktop.Patterns.Defs.{
  cluster_key, or_empty, add_to_cluster, cluster_loop, detect_bug_cluster,
}

abbrev pub cluster_of : String → Dict (List BugEvent) → List BugEvent
cluster_of k m = or_empty (Dict.get k m)

abbrev pub has_key : String → BugEvent → Bool
has_key k e = str_eq (cluster_key e) k

appended-by_key :
    (j k : String) (e : BugEvent) (m : Dict (List BugEvent)) (b : Bool)
    → str_eq j k ≡ b
    → or_empty (if b then some (cluster_of j m ++ e ∷ []) else Dict.get k m)
      ≡ cluster_of k m ++ (if b then e ∷ [] else [])
appended-by_key j k e m true h = ap (λ i. cluster_of i m ++ e ∷ []) ((eq_iff j k).0 h)
appended-by_key j k e m false h = sym (append-nil (cluster_of k m))

cluster_of-add :
    (k : String) (e : BugEvent) (m : Dict (List BugEvent))
    → cluster_of k (add_to_cluster e m) ≡ cluster_of k m ++ (if has_key k e then e ∷ [] else [])
unfolding add_to_cluster
cluster_of-add k e m =
    ap or_empty (Dict.get-set (cluster_key e) k (cluster_of (cluster_key e) m ++ e ∷ []) m)
    ∙ appended-by_key (cluster_key e) k e m (has_key k e) refl

prepend-if :
    (b : Bool) (e : BugEvent) (es : List BugEvent)
    → (if b then e ∷ [] else []) ++ es ≡ (if b then e ∷ es else es)
prepend-if true e es = refl
prepend-if false e es = refl

cluster_loop-partition :
    (k : String) (es : List BugEvent) (m : Dict (List BugEvent))
    → cluster_of k (cluster_loop m es) ≡ cluster_of k m ++ filter (has_key k) es
unfolding cluster_loop
cluster_loop-partition k [] m = sym (append-nil (cluster_of k m))
cluster_loop-partition k (e ∷ es) m =
    cluster_loop-partition k es (add_to_cluster e m)
    ∙ ap (λ xs. xs ++ filter (has_key k) es) (cluster_of-add k e m)
    ∙ append_assoc (cluster_of k m) (if has_key k e then e ∷ [] else []) (filter (has_key k) es)
    ∙ ap (λ xs. cluster_of k m ++ xs) (prepend-if (has_key k e) e (filter (has_key k) es))

-- The cluster of every key is the list of all the events with that key, in the order of the events:
-- no event is lost, put twice or put elsewhere.
pub detect_bug_cluster-partition :
    (k : String) (es : List BugEvent) → cluster_of k (detect_bug_cluster es) ≡ filter (has_key k) es
unfolding detect_bug_cluster Dict.get
detect_bug_cluster-partition k es = cluster_loop-partition k es []
