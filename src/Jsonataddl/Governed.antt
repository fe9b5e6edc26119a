-- ===== src/Jsonataddl/Governed.antt =====
-- jsonataddl/compile.go: what holds of every application that validateTopology accepts.
use tailapps.Prelude.{
  ◌≡◌, refl, ap, sym, ◌∙◌, inl, inr, String, true, not, List, [], ◌∷◌, Option, none, some, Result,
  ok, ◌>>=◌, ◌>>◌, >>=-eq-ok, guard, guard-eq-ok, str_eq, eq_iff, All, All-map, Bool-cases, arith,
}
use tailapps.Jsonataddl.Types.{Table, View, Program, Read}
use tailapps.Jsonataddl.Names.{to_lower, same_codes}
use tailapps.Jsonataddl.Views.{Schema, find_key}
use tailapps.Jsonataddl.Topology.{
  Plan, Claims, TopologyError, sees, visibility_of, is_many, ordered, check_programs, check_claimed,
  check_written, check_views, claim_programs, programs, has_fold, validate_topology,
  private_event_missing, normalizer_missing, fold_missing,
}
use tailapps.Jsonataddl.Backing.{Backs, is_among, same_codes_iff}
use tailapps.Jsonataddl.Found.{resolve_relation-Backs}
use tailapps.Jsonataddl.Lookups.{Distinct}
use tailapps.Jsonataddl.Owners.{declared_writes, Tracked}
use tailapps.Jsonataddl.Claimed.{Named, claim_programs-Tracked, claimed_by}
use tailapps.Jsonataddl.Visible.{EndsIn, order-EndsIn, Readable, check_programs-All}

-- A table that a read's order is sure to sort in one way.
pub record Sorted (a : Schema) (read : Read) : Type 0 where
  pub table : Table
  pub is_table : find_key read.table a.tables ≡ some table
  pub ends : EndsIn read.order_by table.unique_keys

module _ (p : Plan) (a : Schema) where
  -- What a program may rely on for a read: each table behind the relation has, by its lower-case
  -- name, a table behind the relation that the program may see; and a read of many rows is sorted.
  pub record Allowed (program : Program) (read : Read) : Type 0 where
    pub sees_all :
        (t : Table)
        → Backs a read.table t
        → (u : Table) × Backs a read.table u
          × (to_lower u.name ≡ to_lower t.name)
          × (sees p program (visibility_of p program) u ≡ true)
    pub sorted : is_many read.cardinality ≡ true → Sorted a read

  -- Each declared write has one program; it is the writer that the table names, and no table is
  -- without one. Every read is allowed, and its parameters are fields that the program may name.
  pub record Governed : Type 0 where
    pub event : p.event_name ≡ p.private_event
    pub single : Distinct (declared_writes (programs p))
    pub declared :
        (n w : String)
        → find_key n (declared_writes (programs p)) ≡ some w
        → (t : Table) × (find_key n a.tables ≡ some t)
    pub writer :
        (n : String) (t : Table)
        → find_key n a.tables ≡ some t
        → find_key n (declared_writes (programs p)) ≡ some t.writer
    pub parameters : All (λ (program : Program). All (Named p program) program.reads) (programs p)
    pub reads : All (λ (program : Program). All (Allowed program) program.reads) (programs p)

  among-All {κ} :
      (P : Table → Type κ) (t : Table) (ts : List Table)
      → is_among t ts ≡ true
      → All P ts
      → (u : Table) × (to_lower u.name ≡ to_lower t.name) × P u
  among-All P t [] h all = cc
  among-All P t (u ∷ us) h all =
      elim (Bool-cases (same_codes (to_lower u.name) (to_lower t.name))) [
        | inl e ↦ (u, (same_codes_iff (to_lower u.name) (to_lower t.name)).0 e, all.0)
        | inr e ↦ among-All P t us (ground (arith, e, h)) all.1
      ]

  All-both {ℓ κ ι} :
      {A : Type ℓ} (P : A → Type κ) (Q : A → Type ι) (xs : List A)
      → All P xs
      → All Q xs
      → All (λ x. P x × Q x) xs
  All-both P Q [] h k = tt
  All-both P Q (x ∷ xs) h k = ((h.0, k.0), All-both P Q xs h.1 k.1)

  ordered-Sorted :
      (read : Read) (o : Option Table)
      → find_key read.table a.tables ≡ o
      → ordered read o ≡ true
      → Sorted a read
  ordered-Sorted read none e h = cc
  ordered-Sorted read (some t) e h = record {
    table = t;
    is_table = e;
    ends = order-EndsIn read.order_by t.unique_keys h;
  }

  Readable-Allowed :
      (program : Program) (read : Read) → Readable p a program read → Allowed program read
  Readable-Allowed program read r =
      let (backing, complete) = resolve_relation-Backs a read.table r.tables r.resolved in
      record {
        sees_all = λ t b.
            let (u, same, (behind, seen)) =
              among-All
                (λ u. Backs a read.table u × (sees p program (visibility_of p program) u ≡ true)) t
                r.tables (complete t b)
                (All-both (Backs a read.table)
                  (λ u. sees p program (visibility_of p program) u ≡ true) r.tables backing
                  r.visible) in
            (u, behind, same, seen);
        sorted = λ m. ordered-Sorted read (find_key read.table a.tables) refl (r.total m);
      }

module _ (p : Plan) where
  check_claimed-Governed :
      (views : List (String × View)) (c : Claims) (b : Schema)
      → p.event_name ≡ p.private_event
      → Tracked c
      → c.writers ≡ declared_writes (programs p)
      → All (λ (program : Program). All (Named p program) program.reads) (programs p)
      → check_claimed p views c ≡ ok b
      → Governed p b
  unfolding check_claimed
  check_claimed-Governed views c b event tracked all_writes named h =
      let a : Schema = record { tables = c.tables; views = views } in
      let last : Result TopologyError Schema = ok a in
      let third : Result TopologyError Schema = check_programs p a (programs p) >> last in
      let second : Result TopologyError Schema = check_views a views >> third in
      let (u, has_writer, then1) = >>=-eq-ok (check_written c.tables) (λ u. second) h in
      let (v, ended, then2) = >>=-eq-ok (check_views a views) (λ u. third) then1 in
      let (w, allowed, end) = >>=-eq-ok (check_programs p a (programs p)) (λ u. last) then2 in
      let same : a ≡ b = cc in
      rw (sym same) (record {
        event = event;
        single = rw (sym all_writes) tracked.distinct;
        declared = λ n w found. tracked.declared n w (ap (λ ws. find_key n ws) all_writes ∙ found);
        writer = λ n t found.
            sym (ap (λ ws. find_key n ws) all_writes) ∙ claimed_by c n t tracked has_writer found;
        parameters = named;
        reads = every a (programs p) (check_programs-All p a (programs p) allowed);
      })
    where
      every :
          (a : Schema) (ps : List Program)
          → All (λ (program : Program). All (Readable p a program) program.reads) ps
          → All (λ (program : Program). All (Allowed p a program) program.reads) ps
      every a ps all =
          All-map (λ program mine. All-map (Readable-Allowed p a program) program.reads mine) ps all

  -- In an application that validateTopology accepts, with no writers noted before, the declared
  -- writes of all programs are pairwise distinct, each names a table, and each table names its only
  -- writer; every parameter of a read is a field that its program may name; every table behind a
  -- read, through however many views, has by its lower-case name one that the program may see; and a
  -- read of many rows is ordered by a declared unique key at the end.
  pub validate_topology-Governed :
      (a b : Schema)
      → ((n : String) (t : Table) → find_key n a.tables ≡ some t → t.writer ≡ "")
      → validate_topology p a ≡ ok b
      → Governed p b
  unfolding validate_topology find_key
  validate_topology-Governed a b unwritten h =
      let start : Claims = record { writers = []; tables = a.tables } in
      let first : Tracked start = record {
        distinct = tt;
        owned = λ n t found. unwritten n t found;
        declared = λ n w found. cc;
      } in
      let third : Result TopologyError Schema =
        claim_programs p (programs p) start >>= check_claimed p a.views in
      let second : Result TopologyError Schema = guard (has_fold p.folds) fold_missing >> third in
      let (event, then1) =
        guard-eq-ok (str_eq p.event_name p.private_event) private_event_missing
          (guard (not (str_eq p.normalizer.name "")) normalizer_missing >> second) h in
      let (named, then2) =
        guard-eq-ok (not (str_eq p.normalizer.name "")) normalizer_missing second then1 in
      let (some_fold, then3) = guard-eq-ok (has_fold p.folds) fold_missing third then2 in
      let (c, claims, end) =
        >>=-eq-ok (claim_programs p (programs p) start) (check_claimed p a.views) then3 in
      let (tracked, all_writes, fields) =
        claim_programs-Tracked p (programs p) start c claims first in
      check_claimed-Governed a.views c b ((eq_iff p.event_name p.private_event).0 event) tracked
        all_writes fields end
