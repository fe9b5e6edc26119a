-- ===== src/Projection/Continue.antt =====
-- internal/projection/projection.go: `Continue`.
use tailapps.Prelude.{ℕ, true, none, Result, ok, err, ◌>>=◌, ◌>>◌, guard, str_eq}
use tailapps.Projection.Types.{Failure, Profile, Projection}
use tailapps.Inbox.Tables.{blank}
use tailapps.Projection.Host.{Host}
use tailapps.Projection.Evaluation.{by_key}
use tailapps.Projection.Compatible.{failure, continue_compatible}
use tailapps.Projection.Schema.{
  create_tables, drop_objects, replace_schema, create_exports, check_json_storage,
}

module _ (host : Host) where
  open host use {Rows, marshal_table, schema_objects}

  -- The new tables, then the views and indexes and exports in place of the old ones.
  unfoldable pub change_schema : Profile → Profile → Rows → Result Failure Rows
  change_schema old next rows = do
    created ← create_tables host old.tables next.tables rows
    objects ← schema_objects created
    dropped ← drop_objects host objects created
    replaced ← replace_schema host next.replaceable_sql dropped
    create_exports host (by_key next.exports) replaced

  -- What the transaction of `Continue` makes of the tailapp's tables.
  unfoldable pub migrate : Projection Rows → Profile → Result Failure Rows
  unfolding change_schema
  migrate p next = do
    continue_compatible marshal_table p.profile next
    guard (str_eq p.identity.runtime next.runtime_profile)
        (failure "stored runtime profile changed; acknowledged reset is required")
    check_json_storage host p.profile.tables p.rows
    change_schema p.profile next p.rows

  -- The new frontier stands at the boundary, and the statistics go on.
  unfoldable pub resume : Projection Rows → Profile → ℕ → Rows → Projection Rows
  resume p next boundary rows = record p {
    profile = next;
    identity = record p.identity { revision = next.revision; runtime = next.runtime_profile };
    frontier = record {
      revision = next.revision;
      activation_boundary = boundary;
      interpreted_position = boundary;
      last_event_id = blank;
      complete = true;
      gap_position = none;
      gap_reason = none;
      gap_observed_unix_nano = none;
      last_record_unix_nano = none;
    };
    rows = rows;
  }

  abbrev pub settle_migration :
      Projection Rows
      → Profile
      → ℕ
      → Result Failure Rows
      → Projection Rows × Result Failure (Unit {0})
  settle_migration p next boundary (ok rows) = (resume p next boundary rows, ok tt)
  settle_migration p next boundary (err f) = (p, err f)

  unfoldable pub continue_ :
      Projection Rows → Profile → ℕ → Projection Rows × Result Failure (Unit {0})
  unfolding migrate resume
  continue_ p next boundary = settle_migration p next boundary (migrate p next)
