-- ===== src/Lib.antt =====
-- The runtime learning engine of this repository, modules/runtime-learning-engine: it captures bugs
-- of an Android app, finds patterns in them, hooks the app's methods to fix them, tests the fix
-- and takes it back where the tests fail, under a watchdog.
--
-- Parts, and the files that they are modelled in:
--   Types       types.ts: the shared records.
--   Utils       utils.ts: FNV-1a, the severity, the filter by age.
--   Floats      The doubles that confidences are, as an interface with the laws of comparison.
--   Patterns    pattern-detector.ts, with detectBugCluster and calculateConfidence of utils.ts: Defs,
--               Clusters (the partition by key), Detection (what a detected pattern is worth).
--   Fixer       auto-fixer.ts: Hooks (the loops over overloads), Methods (applyFix, rollbackFix,
--               removePatch), Values (what a hooked method answers), Restore, Restored, Faults.
--   Rollback    rollback-engine.ts: Defs (journalBefore, commitFix, rollback, verifyRollback,
--               persistJournal), Attempts, Verified, Persist.
--   Watchdog    watchdog-monitor.ts, with Timeout on sequences of calls.
--   Store       bug-store.ts: Defs (loadHistory, saveHistory, appendEvent), Buffer, Reload.
--   Hyper       hypermemory-runtime.ts: Defs, Ring (append and eviction), Recovery (checkpoints).
--   Engine      index.ts: Defs (captureBug, processBugEvent, applyFixWithRollback, executeRollback,
--               the watchdog's callback), Lifecycle (constructor, start, stop), Verdict, Settled,
--               Gate, Pending, Invariant.
--   Rollout     rollout-manager.ts: Defs, Stages, Saved. A tool of its own, which the engine does not call.
--   Canary      canary-deployment-orchestrator.ts: Defs, Trace. Another such tool.
--   Disk        disk-exhaustion-handler.ts: Defs, Eviction, Order. Another such tool.
--   Safety      The modules that watch over the engine: Memory (memory-pressure-handler.ts), Corruption
--               (corruption-recovery.ts), Mesh (runtime-safety-mesh.ts), Gate (the mesh's snapshot
--               and the mutation gate of index.ts).
--   Alerts      Rules and Defaults (alert-rules-3-2.ts), Manager and Standard (alert-manager.ts),
--               Debounce and Missed on sequences of calls and on a rate of zero.
--   Concurrent  concurrent-bug-capture.ts: Defs, Apart (captures of different bugs), Race (of one).
--   Testing     test-suite.ts: Defs, Bytes (the check of memory access, and the engine over it).
--   Automation  rollback-automation.ts: Defs, Statistics. A tool of its own.
--   Versions    versioning.ts: Defs, Changelog. A tool of its own.
--   Exporter    metrics-exporter.ts: Defs, Collector, Bounds.
--   Compat      compatibility-checker.ts: Defs, Startup (the check and the start of the engine), Limits.
--   Health      health-check-endpoint.ts: Defs, Status, Limits.
--   Observe     refreshObservability of index.ts over the parts that it calls: Defs, Failsafe.
--   Provenance  provenance-tracker.ts: Defs, Linked.
--   Integrity   integrity-verifier.ts: Defs, Reports. A tool of its own.
--   Feedback    feedback-collector.ts: Defs, Rates. A tool of its own.
--   Receipts    receipt-generator.ts: Defs, Verification. A tool of its own.
--   Examples    Concrete runs.
--
-- The engine calls the other parts: a captured bug goes to the store and the pattern detector, a
-- pattern that is due goes to the fixer, a failed test to the fixer's rollback and then to the
-- journals of the rollback engine, and the watchdog calls back to retry what is pending.
-- Before a fix the engine reads the snapshot of the safety mesh, which asks the memory handler, the
-- disk handler and the corruption handler, and after it the results of the test suite: Engine has
-- both as an interface, Env, which Safety.Gate and Testing.Bytes fill.
--
-- State is passed explicitly, a method of a class is a function of its name in the part's state, and
-- a field is a field of the same name. Times and generated ids are arguments. An exception is `none`,
-- a false first component, or a constructor of a result type, as each file says. The disk is in the
-- state: what a file holds once it is parsed, and whether it takes writes. Concurrency is a sequence of
-- steps: an asynchronous method runs from one await to the next, and others may step between.
--
-- Fuel: only `rollback` recurses on fuel, with one unit more than the greatest number of attempts,
-- which is enough since each round takes an attempt.
--
-- Parameters: Frida's Java bridge and Memory, what the Java runtime answers to the test suite, Node's
-- base64, SHA-256, file system and process.memoryUsage, JSON.parse and the JSON text that is hashed,
-- and the printing and reading of numbers.
--
-- Not modelled: printing; the capture hooks of bug-capture.ts; the reports, audits and measurements
-- about the running system (audit-logger.ts, performance-benchmarking.ts and
-- their like), of which the engine reads nothing; the dashboard, the Android app, the agents and the
-- build scripts, which are other programs.
pub mod Prelude
pub mod Types
pub mod Utils
pub mod Fixer
pub mod Rollback
pub mod Watchdog
pub mod Store
pub mod Hyper
pub mod Floats
pub mod Patterns
pub mod Engine
pub mod Rollout
pub mod Canary
pub mod Disk
pub mod Examples
pub mod Safety
pub mod Alerts
pub mod Concurrent
pub mod Testing
pub mod Automation
pub mod Exporter
pub mod Versions
pub mod Compat
pub mod Health
pub mod Observe
pub mod Provenance
pub mod Receipts
pub mod Integrity
pub mod Feedback
