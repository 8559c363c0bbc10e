-- ===== src/Exporter/Bounds.antt =====
-- The histograms of metrics-exporter.ts.
use frida_desktop.Prelude.{
  ℕ, ◌≤◌, String, Bool, true, false, List, [], ◌∷◌, ◌++◌, if◌then◌else◌, length, length-slice_last,
  Bool-cases, inl, inr, arith, Option, none, some, All, str_eq,
}
use frida_desktop.Prelude.Dict
use frida_desktop.Prelude.Dict.{Dict, set}
use frida_desktop.Floats.{Floats, FloatLaws}
use frida_desktop.Exporter.Defs.{
  Sample, PrometheusMetric, Exporter, is_histogram, keep_samples, add_sample, record_histogram,
  bucket_count,
}

module _ {N : Type 0} (f : Floats N) (finite : N → Bool) (laws : FloatLaws f) where
  bucket_count_mono :
      (b c : ℕ) (xs : List (Sample N))
      → b ≤ c
      → (bucket_count f finite b xs ≤ bucket_count f finite c xs)
        × (bucket_count f finite c xs ≤ length xs)
  unfolding bucket_count
  bucket_count_mono b c [] h = (omega arith, omega arith)
  bucket_count_mono b c (x ∷ xs) h =
      let rest = bucket_count_mono b c xs h in
      let up = laws.le_trans x.value (f.of_nat b) (f.of_nat c) in
      let order = laws.of_nat_mono b c h in
      (ground (arith, rest.0, up, order), ground (arith, rest.1))

  keep_samples-bound : (xs : List (Sample N)) → length (keep_samples xs) ≤ 1000
  unfolding keep_samples
  keep_samples-bound xs = ground (arith, length-slice_last 1000 xs)

  -- A metric keeps at most 1000 samples, and its counts for the bounds `b` and `c` are cumulative.
  pub record IsExportable (b c : ℕ) (m : PrometheusMetric N) : Type 0 where
    pub kept : length m.metrics ≤ 1000
    pub cumulative : bucket_count f finite b m.metrics ≤ bucket_count f finite c m.metrics
    pub counted : bucket_count f finite c m.metrics ≤ length m.metrics

  set_each :
      {V : Type 0} (P : V → Type 0) (k : String) (v : V) (s : Dict V)
      → P v
      → All (λ e. P e.1) s
      → All (λ e. P e.1) (set k v s)
  unfolding set
  set_each P k v [] h all = (h, all)
  set_each P k v ((j, w) ∷ s) h all = elim (Bool-cases (str_eq j k)) [
    | inl e ↦ simp e (h, all.1)
    | inr e ↦ simp e (all.0, set_each P k v s h all.1)
  ]

  keep_samples-IsExportable :
      (b c : ℕ) (m : PrometheusMetric N) (xs : List (Sample N))
      → b ≤ c
      → IsExportable b c (record m { metrics = keep_samples xs })
  keep_samples-IsExportable b c m xs h =
      let counts = bucket_count_mono b c (keep_samples xs) h in
      record { kept = keep_samples-bound xs; cumulative = counts.0; counted = counts.1 }

  either-IsExportable :
      (b c : ℕ) (t : Bool) (s r : Exporter N)
      → All (λ e. IsExportable b c e.1) s
      → All (λ e. IsExportable b c e.1) r
      → All (λ e. IsExportable b c e.1) (if t then s else r)
  either-IsExportable b c true s r h k = h
  either-IsExportable b c false s r h k = k

  add_sample-IsExportable :
      (b c : ℕ) (name : String) (v : N) (labels : Option String) (o : Option (PrometheusMetric N))
      (s : Exporter N)
      → b ≤ c
      → All (λ e. IsExportable b c e.1) s
      → All (λ e. IsExportable b c e.1) (add_sample f finite name v labels o s)
  add_sample-IsExportable b c name v labels none s h all = all
  add_sample-IsExportable b c name v labels (some m) s h all =
      let xs = m.metrics ++ record { labels = labels; value = v } ∷ [] in
      either-IsExportable b c (is_histogram m.kind) _ s
        (set_each (IsExportable b c) name (record m { metrics = keep_samples xs }) s
          (keep_samples-IsExportable b c m xs h) all)
        all

  -- Recording a sample of a histogram keeps every metric at 1000 samples at most with the counts of
  -- any two bounds in order: the count of the lower is at most that of the upper, which is at most
  -- the number of samples.
  record_histogram-IsExportable :
      (b c : ℕ) (name : String) (v : N) (labels : Option String) (s : Exporter N)
      → b ≤ c
      → All (λ e. IsExportable b c e.1) s
      → All (λ e. IsExportable b c e.1) (record_histogram f finite name v labels s)
  unfolding record_histogram
  record_histogram-IsExportable b c name v labels s h all =
      either-IsExportable b c (finite v) _ s
        (add_sample-IsExportable b c name v labels (Dict.get name s) s h all) all
