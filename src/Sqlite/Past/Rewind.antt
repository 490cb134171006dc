-- ===== src/Sqlite/Past/Rewind.antt =====
-- A mount at a past time (`Sqlite::new_at_time` of src/db_module/sqlite.rs) shows the inodes and the extended
-- attributes of that time.
use sqlitefs_temporal.Base.{
  ℕ, ◌≤◌, ◌<◌, ◌≡◌, refl, sym, ap, ◌∙◌, Bool, true, List, ◌∷◌, String, Option, none, some, ◌==◌,
  ◌&&◌, find?, text_eq, ==_iff, eq_iff, arith,
}
use sqlitefs_temporal.Schema.{Connection, MetadataRow, DataRow, AuditRow, Table, Clock}
use sqlitefs_temporal.Sqlite.Local.{metadata_row}
use sqlitefs_temporal.Base.{any}
use sqlitefs_temporal.Sqlite.Xattrs.{is_xattr, xattr_row}
use sqlitefs_temporal.Sqlite.Calls.{Call, history, call_init}
use sqlitefs_temporal.Sqlite.Start.{empty_connection, open_connection, turn_on_foreign_keys}
use sqlitefs_temporal.Sqlite.Start.Ready.{IsReady_stable}
use sqlitefs_temporal.Sqlite.{Sqlite}
use sqlitefs_temporal.Sqlite.Past.{before, latest, create_past, same_xattr, same_metadata}
use sqlitefs_temporal.Sqlite.Past.Clock.{after_readings-all}
use sqlitefs_temporal.Sqlite.Past.Recorded.{IsRecorded, IsRecorded-later, is_alone, is_last}
use sqlitefs_temporal.Sqlite.Past.Latest.{find?-latest, any-latest, before-all}
use sqlitefs_temporal.Sqlite.Past.Audited.{IsAudited, is_inode}
use sqlitefs_temporal.Sqlite.Past.Statements.{IsAudited_stable}
use sqlitefs_temporal.Sqlite.Past.Since.{IsSince, IsSince_stable}
use sqlitefs_temporal.Sqlite.Invariant.History.{history_induction}

-- What the triggers stamped until now is before the time, and what they stamp from now on is not.
pub record IsMoment (time : ℕ) (c : Connection) : Type 0 where
  pub over : (k : ℕ) → k < c.ticks → c.clock.stamped k < time
  pub come : (k : ℕ) → c.ticks ≤ k → time ≤ c.clock.stamped k

text_eq_comm : (a b : String) → text_eq a b ≡ text_eq b a
text_eq_comm a b = ground (arith, (eq_iff a b).0, (eq_iff a b).1, (eq_iff b a).0, (eq_iff b a).1)

-- What a table of the past shows of a key that the log records.
found_then :
    {R : Type 0} (time : ℕ) (q : R → Bool) (same : R → R → Bool) (t : Table R)
    (log : List (AuditRow R))
    → ((r s : R) → q r ≡ true → same r s ≡ q s)
    → IsRecorded time q t
    → before time log ≡ before time t.audit
    → is_alone q t.audit ≡ true
    → find? q (latest same (before time log)) ≡ find? q t.rows
found_then time q same t log k w e alone =
    rw (e ∙ before-all time t.audit w.earlier) (find?-latest q same t.audit k alone ∙ sym w.logged)

-- A row that a key had then is among what a table of the past shows of it.
kept_then :
    {R : Type 0} (time : ℕ) (q p : R → Bool) (same : R → R → Bool) (t : Table R)
    (log : List (AuditRow R)) (r : R)
    → ((r s : R) → q r ≡ true → same r s ≡ q s)
    → IsRecorded time q t
    → before time log ≡ before time t.audit
    → is_last q t.audit ≡ true
    → find? q t.rows ≡ some r
    → p r ≡ true
    → any p (latest same (before time log)) ≡ true
kept_then time q p same t log r k w e last f h =
    rw (e ∙ before-all time t.audit w.earlier)
      (any-latest q p same t.audit r k last (sym w.logged ∙ f) h)

module _ (time : ℕ) (c : Connection) (w : IsAudited c) (g : IsMoment time c) (rec ro : Bool)
    (calls : List Call) where
  later_since :
      IsSince time
        (before time c.metadata.audit)
        (before time c.xattr.audit)
        (history rec ro calls c)
  later_since =
      history_induction (IsSince time _ _) rec ro calls c
        (record { reached = g.come; inodes = refl; attributes = refl })

  pub past-metadata :
      (i : ℕ)
      → is_alone (is_inode i) c.metadata.audit ≡ true
      → find? (is_inode i) (create_past time (history rec ro calls c)).tmetadata ≡ metadata_row c i
  unfolding create_past
  past-metadata i =
      found_then time (is_inode i) same_metadata c.metadata (history rec ro calls c).metadata.audit
        (λ r s e. ap (λ a. a == s.id) ((==_iff r.id i).0 e) ∙ ground arith)
        (IsRecorded-later (after_readings-all c.clock c.ticks time g.over) (w.logs.inodes i))
        later_since.inodes

  pub past-metadata_kept :
      (i : ℕ) (r : MetadataRow) (p : MetadataRow → Bool)
      → is_last (is_inode i) c.metadata.audit ≡ true
      → metadata_row c i ≡ some r
      → p r ≡ true
      → any p (create_past time (history rec ro calls c)).tmetadata ≡ true
  unfolding create_past
  past-metadata_kept i r p =
      kept_then time (is_inode i) p same_metadata c.metadata (history rec ro calls c).metadata.audit
        r (λ r s e. ap (λ a. a == s.id) ((==_iff r.id i).0 e) ∙ ground arith)
        (IsRecorded-later (after_readings-all c.clock c.ticks time g.over) (w.logs.inodes i))
        later_since.inodes

  pub past-xattr :
      (i : ℕ) (n : String)
      → is_alone (is_xattr i n) c.xattr.audit ≡ true
      → find? (is_xattr i n) (create_past time (history rec ro calls c)).txattr ≡ xattr_row c i n
  unfolding create_past
  past-xattr i n =
      found_then time (is_xattr i n) same_xattr c.xattr (history rec ro calls c).xattr.audit
        (λ r s e.
          ap (λ a. a == s.file_id && text_eq r.name s.name) ((==_iff r.file_id i).0 (ground arith))
          ∙ ap (λ a. i == s.file_id && text_eq a s.name) ((eq_iff r.name n).0 (ground arith))
          ∙ ground (arith, text_eq_comm n s.name))
        (IsRecorded-later (after_readings-all c.clock c.ticks time g.over) (w.logs.attributes i n))
        later_since.attributes

-- What `new_at_time` opens.
abbrev pub past_of : ℕ → Connection → Sqlite
past_of time c = record {
  conn = create_past time (turn_on_foreign_keys (open_connection none c)).1;
  read_only = true;
  time_recording = true;
}

-- A database grown from an empty one by a history of calls.
abbrev pub grown : Clock → (List DataRow → Option ℕ) → Bool → Bool → List Call → Connection
grown clock bare rec ro calls = history rec ro (call_init ∷ calls) (empty_connection clock bare)
