-- ===== src/Projection/Continued.antt =====
-- internal/projection/projection.go: what `Continue` has done to the projection and its tables.
use tailapps.Prelude.{
  ℕ, String, true, ◌≡◌, refl, Option, none, List, [], ◌∷◌, map, Result, ok, err, ◌>>=◌, ◌>>◌, guard,
  All, str_eq, eq_iff, >>=-eq-ok, guard-eq-ok,
}
use tailapps.Inbox.Tables.{blank}
use tailapps.Projection.Types.{Failure, Table, Profile, Frontier, Projection}
use tailapps.Projection.Host.{Host}
use tailapps.Projection.Evaluation.{by_key}
use tailapps.Projection.Compatible.{
  failure, continue_compatible, continue_compatible_iff, Retained, ReadsBack,
}
use tailapps.Projection.Schema.{
  drop_statement, export_statement, create_tables, drop_objects, replace_schema, create_exports,
  check_json_storage,
}
use tailapps.Projection.Executed.{
  additive, Executes, create_tables-Executes, drop_objects-Executes, replace_schema-Executes,
  create_exports-Executes,
}
use tailapps.Projection.JsonStorage.{JsonStored, check_json_storage-All}
use tailapps.Projection.Continue.{change_schema, migrate, resume, settle_migration, continue_}
use tailapps.Projection.Kept.{Kept, Keeps, Kept-trans, Executes-Kept}

-- The contents of a table of the name, in the tailapp's database.
module _ (host : Host) {Contents : Type 0} (contents : String → host.Rows → Contents) where
  open host use {Rows, exec, schema_objects, marshal_table}

  drops-All :
      (tables : List (String × Table)) (objects : List (String × String))
      → ((object : String × String) → Keeps host contents tables (drop_statement object))
      → All (Keeps host contents tables) (map drop_statement objects)
  drops-All tables [] keep = tt
  drops-All tables (object ∷ rest) keep = (keep object, drops-All tables rest keep)

  -- The statements that were executed on the tables, in order: the SQL of the tables that the old
  -- profile has not, the drops of all views and indexes, the replaceable SQL, and the exports.
  pub record SchemaChanged (old next : Profile) (r r' : Rows) : Type 0 where
    pub created : Rows
    pub objects : List (String × String)
    pub without_views : Rows
    pub replaced : Rows
    pub creates : Executes host (additive old.tables next.tables) r created
    pub all_objects : schema_objects created ≡ ok objects
    pub drops : Executes host (map drop_statement objects) created without_views
    pub replaces : Executes host next.replaceable_sql without_views replaced
    pub exports : Executes host (map export_statement (by_key next.exports)) replaced r'

  change_schema-SchemaChanged :
      (old next : Profile) (r r' : Rows)
      → change_schema host old next r ≡ ok r'
      → SchemaChanged old next r r'
  unfolding change_schema
  change_schema-SchemaChanged old next r r' h =
      let replace : Rows → Result Failure Rows = λ m.
        replace_schema host next.replaceable_sql m >>= create_exports host (by_key next.exports) in
      let drop : Rows → List (String × String) → Result Failure Rows =
        λ m objects. drop_objects host objects m >>= replace in
      let (created, h₁, g₁) =
        >>=-eq-ok (create_tables host old.tables next.tables r) (λ m. schema_objects m >>= drop m)
          h in
      let (objects, h₂, g₂) = >>=-eq-ok (schema_objects created) (drop created) g₁ in
      let (without_views, h₃, g₃) = >>=-eq-ok (drop_objects host objects created) replace g₂ in
      let (replaced, h₄, h₅) =
        >>=-eq-ok (replace_schema host next.replaceable_sql without_views)
          (create_exports host (by_key next.exports)) g₃ in
      record {
        created = created;
        objects = objects;
        without_views = without_views;
        replaced = replaced;
        creates = create_tables-Executes host old.tables next.tables r created h₁;
        all_objects = h₂;
        drops = drop_objects-Executes host objects created without_views h₃;
        replaces = replace_schema-Executes host next.replaceable_sql without_views replaced h₄;
        exports = create_exports-Executes host (by_key next.exports) replaced r' h₅;
      }

  SchemaChanged-Kept :
      (old next : Profile) (r r' : Rows)
      → SchemaChanged old next r r'
      → All (Keeps host contents old.tables) (additive old.tables next.tables)
      → ((object : String × String) → Keeps host contents old.tables (drop_statement object))
      → All (Keeps host contents old.tables) next.replaceable_sql
      → All (Keeps host contents old.tables) (map export_statement (by_key next.exports))
      → Kept host contents old.tables r r'
  SchemaChanged-Kept old next r r' c creates drops replaces exports =
      let ts = old.tables in
      let k₁ =
        Executes-Kept host contents ts (additive ts next.tables) r c.created creates c.creates in
      let k₂ =
        Executes-Kept host contents ts (map drop_statement c.objects) c.created c.without_views
          (drops-All ts c.objects drops) c.drops in
      let k₃ =
        Executes-Kept host contents ts next.replaceable_sql c.without_views c.replaced replaces
          c.replaces in
      let k₄ =
        Executes-Kept host contents ts (map export_statement (by_key next.exports)) c.replaced r'
          exports c.exports in
      Kept-trans host contents ts r c.created r' k₁ (
        Kept-trans host contents ts c.created c.without_views r' k₂
          (Kept-trans host contents ts c.without_views c.replaced r' k₃ k₄))

  -- The frontier at the boundary.
  abbrev pub at_boundary : Profile → ℕ → Frontier
  at_boundary next boundary = record {
    revision = next.revision;
    activation_boundary = boundary;
    interpreted_position = boundary;
    last_event_id = blank;
    complete = true;
    gap_position = none;
    gap_reason = none;
    gap_observed_unix_nano = none;
    last_record_unix_nano = none;
  }

  pub record Continued (p : Projection Rows) (next : Profile) (boundary : ℕ) (q : Projection Rows)
      : Type 0 where
    pub profile : q.profile ≡ next
    pub revision : q.identity.revision ≡ next.revision
    pub frontier : q.frontier ≡ at_boundary next boundary
    pub stats : q.stats ≡ p.stats
    pub stored_runtime : p.identity.runtime ≡ next.runtime_profile
    pub old_runtime : p.profile.runtime_profile ≡ next.runtime_profile
    pub retained : Retained p.profile.tables next.tables
    pub json_stored : All (JsonStored host p.rows) p.profile.tables
    pub schema : SchemaChanged p.profile next p.rows q.rows
    pub kept : Kept host contents p.profile.tables p.rows q.rows

  abbrev pub ContinuePost :
      Projection Rows → Profile → ℕ → Projection Rows → Result Failure (Unit {0}) → Type 0
  ContinuePost p next boundary q (ok u) = Continued p next boundary q
  ContinuePost p next boundary q (err f) = q ≡ p

  module _ (p : Projection Rows) (next : Profile) (boundary : ℕ) (unmarshal : String → Option Table)
      (reads_back : All
        (λ (e : String × Table). ReadsBack marshal_table unmarshal e.1)
        p.profile.tables)
      (next_reads_back : All
        (λ (e : String × Table). ReadsBack marshal_table unmarshal e.1)
        next.tables)
      (creates : All (Keeps host contents p.profile.tables) (additive p.profile.tables next.tables))
      (drops : (object : String × String)
        → Keeps host contents p.profile.tables (drop_statement object))
      (replaces : All (Keeps host contents p.profile.tables) next.replaceable_sql)
      (exports : All
        (Keeps host contents p.profile.tables)
        (map export_statement (by_key next.exports))) where
    migrated :
        (r : Result Failure Rows)
        → migrate host p next ≡ r
        → ContinuePost p next boundary
            (settle_migration host p next boundary r).0
            (settle_migration host p next boundary r).1
    unfolding migrate resume
    migrated (err f) e = refl
    migrated (ok rows) e =
        let schema : Unit {0} → Result Failure Rows =
          λ _. change_schema host p.profile next p.rows in
        let storage = check_json_storage host p.profile.tables p.rows >>= schema in
        let stale = failure "stored runtime profile changed; acknowledged reset is required" in
        let stored : Unit {0} → Result Failure Rows =
          λ _. guard (str_eq p.identity.runtime next.runtime_profile) stale >> storage in
        let (_, compatible, e₁) =
          >>=-eq-ok (continue_compatible marshal_table p.profile next) stored e in
        let (same, e₂) =
          guard-eq-ok (str_eq p.identity.runtime next.runtime_profile) stale storage e₁ in
        let (_, checked, e₃) =
          >>=-eq-ok (check_json_storage host p.profile.tables p.rows) schema e₂ in
        let (runtimes, retained) =
          (continue_compatible_iff marshal_table unmarshal p.profile next reads_back
              next_reads_back).0
            compatible in
        let changed = change_schema-SchemaChanged p.profile next p.rows rows e₃ in
        record {
          profile = refl;
          revision = refl;
          frontier = refl;
          stats = refl;
          stored_runtime = (eq_iff p.identity.runtime next.runtime_profile).0 same;
          old_runtime = runtimes;
          retained = retained;
          json_stored = check_json_storage-All host p.profile.tables p.rows checked;
          schema = changed;
          kept =
              SchemaChanged-Kept p.profile next p.rows rows changed creates drops replaces exports;
        }

    -- `Continue` that fails changes nothing. If it succeeds the projection has the new profile and its
    -- revision, the frontier stands at the boundary without a gap, the statistics are the old ones, the
    -- stored runtime and the old profile's are the new profile's, every table of the old profile is in
    -- the new one with its stored shape, and its columns of type JSON are declared as JSON_TEXT in the
    -- database. The statements executed on the tables are, in order, the SQL of the tables that the old
    -- profile has not, the drops of the views and indexes, the replaceable SQL and the exports, and the
    -- contents of every table of the old profile are as before. The conditions: the encodings of the
    -- profiles' tables decode to them, and of these statements none changes the contents of a table
    -- of the old profile when it succeeds.
    pub continue-Post :
        ContinuePost p next boundary
          (continue_ host p next boundary).0
          (continue_ host p next boundary).1
    unfolding continue_
    continue-Post = migrated (migrate host p next) refl
