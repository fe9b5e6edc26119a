-- ===== src/Projection/Compatible.antt =====
-- internal/profile/compatibility.go: `ContinueCompatible` (jsonataddl/application.go has its twin).
-- Stored shapes are compared by their JSON encodings, which the parameter `marshal` gives.
use tailapps.Prelude.{
  String, Bool, true, false, ◌≡◌, refl, ap, sym, ◌∙◌, ◌↔◌, Option, none, some, List, [], ◌∷◌,
  Result, ok, err, ◌>>◌, guard, All, str_eq, eq_iff, codes, >>=-eq-ok, guard-eq-ok, subst,
  if◌then◌else◌,
}
use tailapps.Projection.Types.{Failure, application, Table, Profile}
use tailapps.Projection.Evaluation.{member}

abbrev pub failure : String → Failure
failure s = record { kind = application; message = codes s }

-- SQL and Writer are left out of the comparison.
abbrev pub cleared : Table → Table
cleared t = record t { sql = ""; writer = "" }

module _ (marshal : Table → String) where
  abbrev pub same_table : Table → Table → Bool
  same_table prior candidate = str_eq (marshal (cleared prior)) (marshal (cleared candidate))

  abbrev pub candidate_table : Option Table → Table → Result Failure (Unit {0})
  candidate_table none prior = err (failure "existing writable table was removed")
  candidate_table (some candidate) prior =
      guard (same_table prior candidate) (failure "existing writable table changed stored shape")

  unfoldable pub check_tables :
      List (String × Table) → List (String × Table) → Result Failure (Unit {0})
  check_tables [] next = ok tt
  check_tables ((name, prior) ∷ rest) next = do
    candidate_table (member name next) prior
    check_tables rest next

  unfoldable pub continue_compatible : Profile → Profile → Result Failure (Unit {0})
  unfolding check_tables
  continue_compatible existing next = do
    guard (str_eq existing.runtime_profile next.runtime_profile)
        (failure "runtime profile changed; acknowledged reset is required")
    check_tables existing.tables next.tables

-- The stored shape: all the fields but SQL and Writer.
pub record SameShape (a b : Table) : Type 0 where
  pub name : a.name ≡ b.name
  pub columns : a.columns ≡ b.columns
  pub primary_key : a.primary_key ≡ b.primary_key
  pub unique_keys : a.unique_keys ≡ b.unique_keys
  pub storage_shape : a.storage_shape ≡ b.storage_shape

-- Every table of the old revision is in the new one, with the same stored shape.
abbrev pub Retained : List (String × Table) → List (String × Table) → Type 0
Retained old next =
    All (λ entry. (t : Table) × (member entry.0 next ≡ some t) × SameShape entry.1 t) old

cleared-SameShape : (a b : Table) → cleared a ≡ cleared b → SameShape a b
cleared-SameShape a b e = record {
  name = ap (λ t. t.name) e;
  columns = ap (λ t. t.columns) e;
  primary_key = ap (λ t. t.primary_key) e;
  unique_keys = ap (λ t. t.unique_keys) e;
  storage_shape = ap (λ t. t.storage_shape) e;
}

SameShape-cleared : (a b : Table) → SameShape a b → cleared a ≡ cleared b
SameShape-cleared a b s = λ i. record {
  name = s.name i;
  columns = s.columns i;
  primary_key = s.primary_key i;
  unique_keys = s.unique_keys i;
  storage_shape = s.storage_shape i;
  sql = "";
  writer = "";
}

pick-All :
    {V : Type 0} (P : V → Type 0) (b : Bool) (w : V) (o : Option V)
    → P w
    → ((v : V) → o ≡ some v → P v)
    → (v : V) → (if b then some w else o) ≡ some v
    → P v
pick-All P true w o here there v h = let e : w ≡ v = cc in subst P e here
pick-All P false w o here there v h = there v h

member-All :
    {V : Type 0} (P : V → Type 0) (k : String) (es : List (String × V))
    → All (λ (e : String × V). P e.1) es
    → (v : V) → member k es ≡ some v
    → P v
member-All P k [] all v h = cc
member-All P k ((j, w) ∷ rest) all v h =
    pick-All P (str_eq j k) w (member k rest) all.0 (member-All P k rest all.1) v h

guard_iff : (b : Bool) (e : Failure) → (guard b e ≡ ok tt) ↔ (b ≡ true)
guard_iff true e = (λ h. refl, λ h. refl)
guard_iff false e = (λ h. cc, λ h. cc)

module _ (marshal : Table → String) (unmarshal : String → Option Table) where
  -- The encoding of the table, without SQL and writer, decodes to it.
  abbrev pub ReadsBack : Table → Type 0
  ReadsBack t = unmarshal (marshal (cleared t)) ≡ some (cleared t)

  same_table_iff :
      (a b : Table) → ReadsBack a → ReadsBack b → (same_table marshal a b ≡ true) ↔ SameShape a b
  same_table_iff a b back_a back_b =
      let texts = eq_iff (marshal (cleared a)) (marshal (cleared b)) in
      (
        λ h.
            let read : some (cleared a) ≡ some (cleared b) =
              sym back_a ∙ ap unmarshal (texts.0 h) ∙ back_b in
            let same : cleared a ≡ cleared b = cc in cleared-SameShape a b same,
        λ s. texts.1 (ap marshal (SameShape-cleared a b s)),
      )

  candidate-Retained :
      (o : Option Table) (prior : Table)
      → ((t : Table) → o ≡ some t → ReadsBack t)
      → ReadsBack prior
      → (candidate_table marshal o prior ≡ ok tt) ↔ ((t : Table) × (o ≡ some t) × SameShape prior t)
  candidate-Retained none prior backs back = (λ h. cc, λ r. cc (r.1))
  candidate-Retained (some c) prior backs back =
      let checked =
        guard_iff (same_table marshal prior c)
          (failure "existing writable table changed stored shape") in
      let shapes = same_table_iff prior c back (backs c refl) in
      (
        λ h. (c, refl, shapes.0 (checked.0 h)),
        λ r.
            let e : c ≡ r.0 = (let q = r.1 in cc) in
            checked.1 (shapes.1 (subst (λ t. SameShape prior t) (sym e) r.2)),
      )

  check_tables-Retained :
      (old next : List (String × Table))
      → All (λ (e : String × Table). ReadsBack e.1) old
      → All (λ (e : String × Table). ReadsBack e.1) next
      → (check_tables marshal old next ≡ ok tt) ↔ Retained old next
  unfolding check_tables
  check_tables-Retained [] next back backs = (λ h. tt, λ r. refl)
  check_tables-Retained ((name, prior) ∷ rest) next back backs =
      let step =
        candidate-Retained (member name next) prior (member-All ReadsBack name next backs) back.0 in
      let others = check_tables-Retained rest next back.1 backs in
      (
        λ h.
            let (u, first, then_) =
              >>=-eq-ok (candidate_table marshal (member name next) prior)
                (λ _. check_tables marshal rest next) h in
            (step.0 first, others.0 then_),
        λ r. rw (step.1 r.0) (others.1 r.1),
      )

  -- Where the encodings of the tables of both profiles, without SQL and writer, decode to those
  -- tables, `ContinueCompatible` accepts exactly when the runtime profiles are the same and every
  -- writable table of the existing profile stands under its name in the next one with the same name,
  -- columns, primary key, unique keys and storage shape.
  pub continue_compatible_iff :
      (existing next : Profile)
      → All (λ (e : String × Table). ReadsBack e.1) existing.tables
      → All (λ (e : String × Table). ReadsBack e.1) next.tables
      → (continue_compatible marshal existing next ≡ ok tt)
        ↔ ((existing.runtime_profile ≡ next.runtime_profile) × Retained existing.tables next.tables)
  unfolding continue_compatible
  continue_compatible_iff existing next back backs =
      let changed = failure "runtime profile changed; acknowledged reset is required" in
      let runtimes = eq_iff existing.runtime_profile next.runtime_profile in
      let tables = check_tables-Retained existing.tables next.tables back backs in
      (
        λ h.
            let (same, rest) =
              guard-eq-ok (str_eq existing.runtime_profile next.runtime_profile) changed
                (check_tables marshal existing.tables next.tables) h in
            (runtimes.0 same, tables.0 rest),
        λ r. rw (runtimes.1 r.0) (tables.1 r.1),
      )
