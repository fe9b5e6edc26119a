-- ===== src/Jsonataddl/Allowlist.antt =====
-- jsonataddl/authorizer.go: what the callback of ReadAuthorizer lets through.
use tailapps.Prelude.{
  ℕ, zero, suc, ◌≡◌, refl, sym, ◌⊎◌, inl, inr, String, Bool, true, false, List, [], ◌∷◌, map, any,
  Option, none, some, str_eq, eq_iff, length, if◌then◌else◌, All, arith,
}
use tailapps.Jsonataddl.Types.{Column, Table, View, Read}
use tailapps.Jsonataddl.Names.{to_lower}
use tailapps.Jsonataddl.Views.{Schema, find_key, on_stack}
use tailapps.Jsonataddl.Authorizer.{
  Columns, Admission, admit, and_then, admit_all, admit_found, admit_relation, admitted_by,
  admit_reads,
}

pub and_then-some {ℓ κ} :
    {A : Type ℓ} {B : Type κ} (o : Option A) (next : A → Option B) {b : B}
    → and_then o next ≡ some b
    → (x : A) × (o ≡ some x) × (next x ≡ some b)
and_then-some none next h = cc
and_then-some (some x) next h = (x, refl, h)

-- A name that a read plan names, or on which a view of such a name depends.
pub data Planned (a : Schema) (reads : List Read) : String → Type 0 where
  named :
      {name : String} → any (λ (r : Read). str_eq r.table name) reads ≡ true → Planned a reads name
  depends :
      {name dependency : String} {view : View}
      → Planned a reads name
      → find_key name a.tables ≡ none
      → find_key name a.views ≡ some view
      → any (λ d. str_eq d dependency) view.dependencies ≡ true
      → Planned a reads dependency

module _ (a : Schema) (reads : List Read) where
  -- The declared columns of a table; any column of a view.
  abbrev pub Form : String → Columns → Type 0
  Form name (some keys) =
      (t : Table) × (find_key name a.tables ≡ some t)
      × (keys ≡ map (λ (column : Column). to_lower column.name) t.columns)
  Form name none =
      (view : View) × (find_key name a.tables ≡ none) × (find_key name a.views ≡ some view)

  pub record Granted (e : List ℕ × Columns) : Type 0 where
    pub name : String
    pub planned : Planned a reads name
    pub key : to_lower name ≡ e.0
    pub form : Form name e.1

  admit_all-Granted :
      (recur : String → Admission → Option Admission) (dependencies : List String)
      (s s' : Admission)
      → ((d : String) (u u' : Admission)
          → any (λ e. str_eq e d) dependencies ≡ true
          → All Granted u.admitted
          → recur d u ≡ some u'
          → All Granted u'.admitted)
      → All Granted s.admitted
      → admit_all recur dependencies s ≡ some s'
      → All Granted s'.admitted
  unfolding admit_all
  admit_all-Granted recur [] s s' each all h = let e : s ≡ s' = cc in rw (sym e) all
  admit_all-Granted recur (d ∷ rest) s s' each all h =
      let (u, step, then1) = and_then-some (recur d s) (admit_all recur rest) h in
      let first : str_eq d d ≡ true = (eq_iff d d).1 refl in
      admit_all-Granted recur rest u s' (λ d' v v' e. each d' v v' (ground (arith, e)))
        (each d s u (ground (arith, first)) all step) then1

  admit_found-Granted :
      (recur : String → Admission → Option Admission) (name : String) (o : Option Table)
      (v : Option View) (s s' : Admission)
      → find_key name a.tables ≡ o
      → find_key name a.views ≡ v
      → ((d : String) (u u' : Admission)
          → Planned a reads d
          → All Granted u.admitted
          → recur d u ≡ some u'
          → All Granted u'.admitted)
      → Planned a reads name
      → All Granted s.admitted
      → admit_found recur name o v s ≡ some s'
      → All Granted s'.admitted
  admit_found-Granted recur name (some t) v s s' e f each planned all h =
      let keys = map (λ (column : Column). to_lower column.name) t.columns in
      let same : admit name (some keys) s ≡ s' = cc in
      let entry : Granted (to_lower name, some keys) = record {
        name = name;
        planned = planned;
        key = refl;
        form = (t, e, refl);
      } in
      rw (sym same) (entry, all)
  admit_found-Granted recur name none none s s' e f each planned all h =
      let same : s ≡ s' = cc in rw (sym same) all
  admit_found-Granted recur name none (some view) s s' e f each planned all h =
      let entry : Granted (to_lower name, none) = record {
        name = name;
        planned = planned;
        key = refl;
        form = (view, e, f);
      } in
      admit_all-Granted recur view.dependencies (admit name none s) s'
        (λ d u u' declared. each d u u' (depends planned e f declared)) (entry, all) h

  off_seen :
      {A : Type 0} (b : Bool) (x y : Option A) (r : A)
      → (if b then x else y) ≡ some r
      → (x ≡ some r) ⊎ (y ≡ some r)
  off_seen true x y r h = inl h
  off_seen false x y r h = inr h

  admit_relation-Granted :
      (fuel : ℕ) (name : String) (s s' : Admission)
      → Planned a reads name
      → All Granted s.admitted
      → admit_relation fuel a name s ≡ some s'
      → All Granted s'.admitted
  unfolding admit_relation
  admit_relation-Granted zero name s s' planned all h = cc
  admit_relation-Granted (suc fuel) name s s' planned all h =
      let marked : Admission = record s { seen = to_lower name ∷ s.seen } in
      let found =
        admit_found (admit_relation fuel a) name (find_key name a.tables) (find_key name a.views)
          marked in
      elim (off_seen (on_stack (to_lower name) s.seen) (some s) found s' h) [
        | inl e ↦ let same : s ≡ s' = cc in rw (sym same) all
        | inr e ↦
            admit_found-Granted (admit_relation fuel a) name (find_key name a.tables)
              (find_key name a.views) marked s' refl refl (admit_relation-Granted fuel) planned all
              e
      ]

  -- Any of the reads.
  pub admit_reads-Granted :
      (some_reads : List Read) (admitted admitted' : List (List ℕ × Columns))
      → ((name : String)
          → any (λ (r : Read). str_eq r.table name) some_reads ≡ true
          → Planned a reads name)
      → All Granted admitted
      → admit_reads a some_reads admitted ≡ some admitted'
      → All Granted admitted'
  unfolding admit_reads
  admit_reads-Granted [] admitted admitted' in_plan all h =
      let e : admitted ≡ admitted' = cc in rw (sym e) all
  admit_reads-Granted (read ∷ rest) admitted admitted' in_plan all h =
      let start : Admission = record { admitted = admitted; seen = [] } in
      let run = admit_relation (suc (length a.views)) a read.table start in
      let (next, step, then1) = and_then-some (admitted_by run) (admit_reads a rest) h in
      let first : str_eq read.table read.table ≡ true = (eq_iff read.table read.table).1 refl in
      let (s, ended, given) = admitted_some run next step in
      let grown =
        admit_relation-Granted (suc (length a.views)) read.table start s
          (in_plan read.table (ground (arith, first))) all ended in
      admit_reads-Granted rest next admitted' (λ name e. in_plan name (ground (arith, e)))
        (rw (sym given) grown) then1
    where
      admitted_some :
          (o : Option Admission) (next : List (List ℕ × Columns))
          → admitted_by o ≡ some next
          → (s : Admission) × (o ≡ some s) × (s.admitted ≡ next)
      admitted_some none next h = cc
      admitted_some (some s) next h = let e : s.admitted ≡ next = cc in (s, refl, e)
