-- ===== src/Work/Recorded.antt =====
-- What the rows of preparations and executions hold at all times: a plan that its validator accepts as it
-- stands, and an actual snapshot that is either absent or complete with its version, hash and recording
-- mode.
use perovskite_fabrication_w.Prelude.{
  ℕ, ◌≡◌, ap, String, Option, none, some, true, Result, ok, err, is_some,
}
use perovskite_fabrication_w.Snapshots.{SnapshotError}
use perovskite_fabrication_w.Work.Data.{RecordingMode}
use perovskite_fabrication_w.Work.{or_snapshot_refused}

module _ {A : Type 0} (validate : A → Result SnapshotError A) (hash : A → String) where
  -- The validator returns the plan as it stands, and its hash is that of the plan.
  pub record IsPlanned (planned : A) (planned_hash : String) : Type 0 where
    pub plan_accepted : validate planned ≡ ok planned
    pub plan_hashed : planned_hash ≡ hash planned

  -- An actual snapshot with its columns: all absent, or all present and agreeing.
  abbrev pub IsActual : ℕ → Option A → Option ℕ → Option String → Option RecordingMode → Type 0
  IsActual current none version written mode = (version ≡ none) × (written ≡ none) × (mode ≡ none)
  IsActual current (some s) version written mode =
      (validate s ≡ ok s)
      × (version ≡ some current)
      × (written ≡ some (hash s))
      × (is_some mode ≡ true)

pub or_snapshot_refused-eq-ok {ℓ} :
    {A : Type ℓ} (m : Result SnapshotError A) (a : A) → or_snapshot_refused m ≡ ok a → m ≡ ok a
or_snapshot_refused-eq-ok (ok b) a e = let same : b ≡ a = cc in ap ok same
or_snapshot_refused-eq-ok (err reason) a e = absurd cc
