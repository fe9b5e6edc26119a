-- ===== src/Projection/Tests/Continuing.antt =====
-- The theorems on `Continue` on a small database: a table that is kept and a table that is added.
use tailapps.Prelude.{
  ℕ, String, true, false, ◌≡◌, ◌↔◌, refl, ap, List, [], ◌∷◌, Option, none, some, ok, str_eq,
  if◌then◌else◌,
}
use tailapps.Projection.Types.{Table, Profile, Projection}
use tailapps.Projection.Host.{Host}
use tailapps.Projection.Process.{initial}
use tailapps.Projection.Compatible.{
  cleared, check_tables, continue_compatible, continue_compatible_iff, Retained,
}
use tailapps.Projection.Schema.{
  drop_statement, export_statement, create_tables, drop_objects, replace_schema, create_exports,
  check_storage, check_columns,
}
use tailapps.Projection.Continue.{change_schema, migrate, resume, continue_}
use tailapps.Projection.Kept.{Keeps}
use tailapps.Projection.Continued.{ContinuePost, continue-Post}
use tailapps.Projection.Tests.{counter, profile}
use tailapps.Jsonataddl.Names.{to_lower, same_codes}

record Store : Type 0 where
  totals : List ℕ
  calls : Option (List ℕ)

abbrev totals_table : Table
totals_table = record {
  name = "totals";
  columns =
      some (record { name = "body"; type = "JSON"; not_null = true; primary_key = false } ∷ []);
  primary_key = some [];
  unique_keys = none;
  storage_shape = "rowid";
  sql = "CREATE TABLE totals(body JSON_TEXT)";
  writer = "fold";
}

abbrev calls_table : Table
calls_table = record totals_table { name = "calls"; columns = none; sql = "CREATE TABLE calls(id)" }

abbrev store : Host
store = record counter {
  Rows = Store;
  select = λ rows r args. ok [];
  insert_row = λ t r u rows. ok rows;
  delete_row = λ t r rows. ok rows;
  exec = λ sql rows. ok (record {
    totals = rows.totals;
    calls = if str_eq sql "CREATE TABLE calls(id)" then some [] else rows.calls;
  });
  schema_objects = λ rows. ok (("view", "by \"day\"") ∷ ("index", "body") ∷ []);
  declared_type = λ rows t c. ok "json_text";
}

abbrev decode_table : String → Option Table
decode_table s =
    if str_eq s "totals" then some (cleared totals_table) else some (cleared calls_table)

abbrev contents : String → Store → Option (List ℕ)
contents name rows = if str_eq name "totals" then some rows.totals else rows.calls

abbrev predecessor : Profile
predecessor = record profile { tables = ("totals", totals_table) ∷ [] }

-- The writer and the SQL of a table may change.
abbrev successor : Profile
successor = record profile {
  revision = "2";
  tables = ("totals", record totals_table { writer = "other" }) ∷ ("calls", calls_table) ∷ [];
  replaceable_sql = "CREATE INDEX body ON totals(body)" ∷ [];
  exports = ("out", "SELECT body FROM totals") ∷ [];
}

abbrev kept : Projection Store
kept = initial predecessor (record { totals = 4 ∷ []; calls = none }) 7

continue_compatible_iff_example :
    (continue_compatible store.marshal_table predecessor successor ≡ ok tt) ↔ (
      (predecessor.runtime_profile ≡ successor.runtime_profile)
      × Retained predecessor.tables successor.tables)
continue_compatible_iff_example =
    continue_compatible_iff store.marshal_table decode_table predecessor successor (refl, tt)
      (refl, (refl, tt))

store-Keeps : (s : String) → Keeps store contents predecessor.tables s
store-Keeps s r r' h =
    let made : Store = record {
      totals = r.totals;
      calls = if str_eq s "CREATE TABLE calls(id)" then some [] else r.calls;
    } in
    let e : made ≡ r' = cc in (ap (contents "totals") e, tt)

-- The new table is created and the old one keeps its row.
continued : (continue_ store kept successor 9).0.rows ≡ record { totals = 4 ∷ []; calls = some [] }
unfolding continue_ migrate change_schema resume continue_compatible check_tables create_tables
    drop_objects replace_schema create_exports check_storage check_columns to_lower same_codes
    initial
continued = refl

continue-Post_example :
    ContinuePost store contents kept successor 9
      (continue_ store kept successor 9).0
      (continue_ store kept successor 9).1
unfolding initial
continue-Post_example =
    continue-Post store contents kept successor 9 decode_table (refl, tt) (refl, (refl, tt))
      (store-Keeps "CREATE TABLE calls(id)", tt) (λ object. store-Keeps (drop_statement object))
      (store-Keeps "CREATE INDEX body ON totals(body)", tt)
      (store-Keeps (export_statement ("out", "SELECT body FROM totals")), tt)
