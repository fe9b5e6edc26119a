-- ===== src/Jsonataddl/Topology.antt =====
-- jsonataddl/compile.go: validateTopology, checkReadVisibility and orderEndsInUniqueKey.
use tailapps.Prelude.{
  suc, ◌-◌, String, Bool, true, false, not, ◌&&◌, ◌||◌, List, [], ◌∷◌, ◌++◌, map, any, filter, drop,
  Option, none, some, Result, ok, err, ◌>>=◌, ◌>>◌, guard, str_eq, leb, if◌then◌else◌, length,
}
use tailapps.Jsonataddl.Types.{
  Column, Table, View, Read, Program, LogicalType, type_json, Cardinality, many, ReadVisibility,
  own_tables, own_and_normalizer_tables, not_implemented,
}
use tailapps.Jsonataddl.Names.{equal_fold}
use tailapps.Jsonataddl.Views.{Schema, RelationError, find_key, resolve_view, resolve_relation}

-- What the check reads of the compiled application and the dialect.
pub record Plan : Type 0 where
  pub event_name : String
  pub event_columns : List Column
  pub private_event : String
  pub envelope : List String
  pub normalizer : Program
  pub folds : List Program
  pub normalizer_reads : ReadVisibility
  pub fold_reads : ReadVisibility

pub data TopologyError : Type 0 where
  private_event_missing normalizer_missing fold_missing : TopologyError
  writes_undeclared : String → String → TopologyError
  multiple_writers : String → TopologyError
  undeclared_field : String → String → TopologyError
  no_writer : String → TopologyError
  relation_error : RelationError → TopologyError
  cannot_read : String → String → TopologyError
  visibility_not_implemented : TopologyError
  order_not_unique : String → TopologyError

-- `table.Writer = program.Name; c.app.tables[tableName] = table`
unfoldable pub set_writer : String → String → List (String × Table) → List (String × Table)
set_writer name writer [] = []
set_writer name writer ((key, t) ∷ rest) =
    let later = set_writer name writer rest in
    if str_eq key name then (key, record t { writer = writer }) ∷ rest else (key, t) ∷ later

-- The map of the writers so far, and the tables.
pub record Claims : Type 0 where
  pub writers : List (String × String)
  pub tables : List (String × Table)

abbrev pub claim :
    String → String → Claims → Option Table → Option String → Result TopologyError Claims
claim program name c none prior = err (writes_undeclared program name)
claim program name c (some t) (some writer) = err (multiple_writers name)
claim program name c (some t) none = ok (record {
  writers = c.writers ++ (name, program) ∷ [];
  tables = set_writer name program c.tables;
})

-- The loop over the writes of a program.
unfoldable pub claim_all : String → List String → Claims → Result TopologyError Claims
claim_all program [] c = ok c
claim_all program (name ∷ rest) c =
    claim program name c (find_key name c.tables) (find_key name c.writers)
    >>= claim_all program rest

unfoldable pub check_parameters :
    List String → Program → List Read → Result TopologyError (Unit {0})
check_parameters fields program [] = ok tt
check_parameters fields program (read ∷ reads) =
    guard (not (any (λ q. not (any (λ f. str_eq f q) fields)) read.parameters))
      (undeclared_field program.name read.name)
    >> check_parameters fields program reads

-- The fields that a read of a program may name: scalars of the private event, or the envelope.
unfoldable pub event_fields : Plan → List String
event_fields p =
    map (λ (column : Column). column.name)
      (filter (λ column. not (is_json column.type)) p.event_columns)
  where
    is_json : LogicalType → Bool
    is_json type_json = true
    is_json _ = false

unfoldable pub parameter_fields : Plan → Program → List String
parameter_fields p program = if program.normalizer then p.envelope else event_fields p

-- The loop over the programs: what they write, and the parameters of their reads.
unfoldable pub claim_programs : Plan → List Program → Claims → Result TopologyError Claims
claim_programs p [] c = ok c
claim_programs p (program ∷ rest) c = claim_all program.name program.writes c >>= λ c'.
    check_parameters (parameter_fields p program) program program.reads >> claim_programs p rest c'

unfoldable pub check_written : List (String × Table) → Result TopologyError (Unit {0})
check_written [] = ok tt
check_written ((name, t) ∷ rest) =
    guard (not (str_eq t.writer "")) (no_writer name) >> check_written rest

abbrev pub lifted {ℓ} : {A : Type ℓ} → Result RelationError A → Result TopologyError A
lifted (ok a) = ok a
lifted (err e) = err (relation_error e)

unfoldable pub check_views : Schema → List (String × View) → Result TopologyError (Unit {0})
check_views a [] = ok tt
check_views a ((name, view) ∷ rest) =
    lifted (resolve_view (suc (length a.views)) a [] name) >>= λ tables. check_views a rest

-- Whether a program of a visibility may read a table.
abbrev pub sees : Plan → Program → ReadVisibility → Table → Bool
sees p program own_tables t = str_eq t.writer program.name
sees p program own_and_normalizer_tables t =
    str_eq t.writer p.normalizer.name || str_eq t.writer program.name
sees p program (not_implemented text) t = false

abbrev pub invisible : ReadVisibility → Program → Table → TopologyError
invisible (not_implemented text) program t = visibility_not_implemented
invisible _ program t = cannot_read program.name t.name

unfoldable pub check_read_visibility :
    Plan → Program → ReadVisibility → List Table → Result TopologyError (Unit {0})
check_read_visibility p program visibility [] = ok tt
check_read_visibility p program visibility (t ∷ ts) =
    guard (sees p program visibility t) (invisible visibility program t)
    >> check_read_visibility p program visibility ts

-- Names that agree one by one.
unfoldable pub fold_equal : List String → List String → Bool
fold_equal [] [] = true
fold_equal (x ∷ xs) (y ∷ ys) = equal_fold x y && fold_equal xs ys
fold_equal [] (y ∷ ys) = false
fold_equal (x ∷ xs) [] = false

unfoldable pub order_ends_in_unique_key : List String → List (List String) → Bool
order_ends_in_unique_key order [] = false
order_ends_in_unique_key order (key ∷ keys) =
    (leb (length key) (length order) && fold_equal (drop (length order - length key) order) key)
    || order_ends_in_unique_key order keys

abbrev pub is_many : Cardinality → Bool
is_many many = true
is_many _ = false

abbrev pub ordered : Read → Option Table → Bool
ordered read none = false
ordered read (some t) = order_ends_in_unique_key read.order_by t.unique_keys

unfoldable pub visibility_of : Plan → Program → ReadVisibility
visibility_of p program = if program.normalizer then p.normalizer_reads else p.fold_reads

unfoldable pub check_reads : Plan → Schema → Program → List Read → Result TopologyError (Unit {0})
check_reads p a program [] = ok tt
check_reads p a program (read ∷ reads) = lifted (resolve_relation a read.table) >>= λ base.
    check_read_visibility p program (visibility_of p program) base
    >> (guard (not (is_many read.cardinality) || ordered read (find_key read.table a.tables))
          (order_not_unique read.name)
        >> check_reads p a program reads)

unfoldable pub check_programs : Plan → Schema → List Program → Result TopologyError (Unit {0})
check_programs p a [] = ok tt
check_programs p a (program ∷ rest) =
    check_reads p a program program.reads >> check_programs p a rest

abbrev pub programs : Plan → List Program
programs p = p.normalizer ∷ p.folds

abbrev pub has_fold : List Program → Bool
has_fold [] = false
has_fold (f ∷ fs) = true

-- The checks after the claims, on the tables with their writers.
unfoldable pub check_claimed : Plan → List (String × View) → Claims → Result TopologyError Schema
check_claimed p views c =
    let a : Schema = record { tables = c.tables; views = views } in
    check_written c.tables >> (check_views a views >> (check_programs p a (programs p) >> ok a))

unfoldable pub validate_topology : Plan → Schema → Result TopologyError Schema
validate_topology p a =
    guard (str_eq p.event_name p.private_event) private_event_missing
    >> (guard (not (str_eq p.normalizer.name "")) normalizer_missing
        >> (guard (has_fold p.folds) fold_missing
            >> (claim_programs p (programs p) (record { writers = []; tables = a.tables })
                >>= check_claimed p a.views)))
