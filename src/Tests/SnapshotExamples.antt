-- ===== src/Tests/SnapshotExamples.antt =====
-- The snapshot theorems at two receipts of one generation.
use alr_tw.Prelude.{true, ◌≡◌, ◌↔◌, some}
use alr_tw.Snapshot.{assess_receipts}
use alr_tw.Snapshot.Scopes.{IsOneSnapshot}
use alr_tw.Snapshot.Consistency.{consistent_iff}
use alr_tw.Tests.Samples.{receipts}

consistent_iff_example :
    ((assess_receipts 20 receipts (some receipts)).consistent ≡ true)
    ↔ IsOneSnapshot 20 receipts receipts
consistent_iff_example = consistent_iff 20 receipts receipts
