-- ===== src/Sqlite/Recovery.antt =====
-- The delta log of src/db_module/sqlite.rs after any calls: what `apply_diffs` rebuilds is what the
-- table `data` holds.
pub mod Frame
pub mod Sound
use mathlib.Core.Path.{subst}
use sqlitefs_temporal.Base.{ℕ, Bool, ◌≡◌, refl, sym, ◌∙◌, Option, some, List, [], arith}
use sqlitefs_temporal.Sqerror.{ok}
use sqlitefs_temporal.Schema.{Clock, Connection, DataRow, Extensions}
use sqlitefs_temporal.Sqlite.Content.{stored_block}
use sqlitefs_temporal.Sqlite.Diffs.{apply_diffs}
use sqlitefs_temporal.Sqlite.Diffs.Applied.{bdata_block, apply_diffs-audited}
use sqlitefs_temporal.Sqlite.Diffs.Tracked.{IsInverse}
use sqlitefs_temporal.Sqlite.Start.{open_connection, empty_connection}
use sqlitefs_temporal.Sqlite.Calls.{Call, history}
use sqlitefs_temporal.Sqlite.Invariant.History.{history_induction}
use sqlitefs_temporal.Sqlite.Recovery.Sound.{IsSound, IsSound-stable, empty-IsSound}

-- On a connection whose audit table tracks its data, `apply_diffs` fills `bdata` with the data.
pub apply_diffs-IsSound :
    (x : Extensions) (c : Connection) (i b : ℕ)
    → IsSound x c
    → ((apply_diffs c).0 ≡ ok tt) × (bdata_block (apply_diffs c).1 i b ≡ stored_block c i b)
apply_diffs-IsSound x c i b s =
    let (succeeded, filled) = apply_diffs-audited x c i b s.loaded s.tracked.numbered in
    (succeeded, filled ∙ s.tracked.held i b)

-- After any calls on a database that began empty, with extensions whose patches undo their deltas,
-- `apply_diffs` succeeds and gives every block as the table `data` has it.
pub apply_diffs-history :
    (x : Extensions) (clock : Clock) (bare : List DataRow → Option ℕ) (rec ro : Bool)
    (calls : List Call) (i b : ℕ)
    → IsInverse x
    → let c = history rec ro calls (open_connection (some x) (empty_connection clock bare)) in
      ((apply_diffs c).0 ≡ ok tt) × (bdata_block (apply_diffs c).1 i b ≡ stored_block c i b)
apply_diffs-history x clock bare rec ro calls i b inverse =
    apply_diffs-IsSound x
      (history rec ro calls (open_connection (some x) (empty_connection clock bare))) i b
      (history_induction (IsSound x) ⦃s = IsSound-stable x inverse⦄ rec ro calls
        (open_connection (some x) (empty_connection clock bare)) (empty-IsSound x clock bare))
