-- ===== src/Jsonataddl/Visible.antt =====
-- jsonataddl/compile.go: what every program may read, after validateTopology.
use tailapps.Prelude.{
  ℕ, zero, suc, ◌-◌, ◌≡◌, refl, ap, inl, inr, String, true, not, ◌&&◌, ◌||◌, List, [], ◌∷◌, ◌++◌,
  map, Result, ok, err, ◌>>◌, >>=-eq-ok, guard, guard-eq-ok, leb, length, take, drop, All,
  Bool-cases, arith,
}
use tailapps.Jsonataddl.Types.{Table, Program, Read, ReadVisibility}
use tailapps.Jsonataddl.Names.{to_lower, same_codes, equal_fold}
use tailapps.Jsonataddl.Views.{Schema, find_key, RelationError, resolve_relation}
use tailapps.Jsonataddl.Topology.{
  Plan, TopologyError, lifted, sees, invisible, check_read_visibility, visibility_of, fold_equal,
  order_ends_in_unique_key, is_many, ordered, check_reads, check_programs, order_not_unique,
}
use tailapps.Jsonataddl.Backing.{same_codes_iff}

-- An order that ends, but for the case of letters, in one of the keys.
pub record EndsIn (order : List String) (keys : List (List String)) : Type 0 where
  pub key : List String
  pub declared : List String
  pub front : List String
  pub before : List (List String)
  pub after : List (List String)
  pub is_key : keys ≡ before ++ key ∷ after
  pub is_order : order ≡ front ++ declared
  pub agrees : map to_lower declared ≡ map to_lower key

drop-split {ℓ} : {A : Type ℓ} (n : ℕ) (xs : List A) → xs ≡ take n xs ++ drop n xs
drop-split zero xs = refl
drop-split (suc n) [] = refl
drop-split (suc n) (x ∷ xs) = ap (λ l. x ∷ l) (drop-split n xs)

fold_equal-map : (xs ys : List String) → fold_equal xs ys ≡ true → map to_lower xs ≡ map to_lower ys
unfolding fold_equal equal_fold
fold_equal-map [] [] h = refl
fold_equal-map [] (y ∷ ys) h = cc
fold_equal-map (x ∷ xs) [] h = cc
fold_equal-map (x ∷ xs) (y ∷ ys) h =
    let same : same_codes (to_lower x) (to_lower y) ≡ true = ground (arith, h) in
    let e = (same_codes_iff (to_lower x) (to_lower y)).0 same in
    let f = fold_equal-map xs ys (ground (arith, h)) in rw (e, f) refl

pub order-EndsIn :
    (order : List String) (keys : List (List String))
    → order_ends_in_unique_key order keys ≡ true
    → EndsIn order keys
unfolding order_ends_in_unique_key
order-EndsIn order [] h = cc
order-EndsIn order (key ∷ keys) h =
    let n = length order - length key in
    elim (Bool-cases (leb (length key) (length order) && fold_equal (drop n order) key)) [
      | inl e ↦ record {
        key = key;
        declared = drop n order;
        front = take n order;
        before = [];
        after = keys;
        is_key = refl;
        is_order = drop-split n order;
        agrees = fold_equal-map (drop n order) key (ground (arith, e));
      }
      | inr e ↦ one_more (order-EndsIn order keys (ground (arith, e, h)))
    ]
  where
    one_more : EndsIn order keys → EndsIn order (key ∷ keys)
    one_more ends = record {
      key = ends.key;
      declared = ends.declared;
      front = ends.front;
      before = key ∷ ends.before;
      after = ends.after;
      is_key = ap (λ l. key ∷ l) ends.is_key;
      is_order = ends.is_order;
      agrees = ends.agrees;
    }

module _ (p : Plan) (a : Schema) where
  -- A read that its program is allowed.
  pub record Readable (program : Program) (read : Read) : Type 0 where
    pub tables : List Table
    pub resolved : resolve_relation a read.table ≡ ok tables
    pub visible : All (λ t. sees p program (visibility_of p program) t ≡ true) tables
    pub total : is_many read.cardinality ≡ true → ordered read (find_key read.table a.tables) ≡ true

  lifted_ok {ℓ} : {A : Type ℓ} (r : Result RelationError A) (x : A) → lifted r ≡ ok x → r ≡ ok x
  lifted_ok (ok y) x h = let e : y ≡ x = cc in ap (λ z. ok z) e
  lifted_ok (err e) x h = cc

  check_read_visibility-All :
      (program : Program) (visibility : ReadVisibility) (ts : List Table)
      → check_read_visibility p program visibility ts ≡ ok tt
      → All (λ t. sees p program visibility t ≡ true) ts
  unfolding check_read_visibility
  check_read_visibility-All program visibility [] h = tt
  check_read_visibility-All program visibility (t ∷ ts) h =
      let (good, rest) =
        guard-eq-ok (sees p program visibility t) (invisible visibility program t)
          (check_read_visibility p program visibility ts) h in
      (good, check_read_visibility-All program visibility ts rest)

  check_reads-All :
      (program : Program) (reads : List Read)
      → check_reads p a program reads ≡ ok tt
      → All (Readable program) reads
  unfolding check_reads
  check_reads-All program [] h = tt
  check_reads-All program (read ∷ reads) h =
      let visibility = visibility_of p program in
      let test = not (is_many read.cardinality) || ordered read (find_key read.table a.tables) in
      let tail : Result TopologyError (Unit {0}) =
        guard test (order_not_unique read.name) >> check_reads p a program reads in
      let next : List Table → Result TopologyError (Unit {0}) =
        λ base. check_read_visibility p program visibility base >> tail in
      let (base, step, then1) = >>=-eq-ok (lifted (resolve_relation a read.table)) next h in
      let (u, seen, then2) =
        >>=-eq-ok (check_read_visibility p program visibility base) (λ u. tail) then1 in
      let (good, rest) =
        guard-eq-ok test (order_not_unique read.name) (check_reads p a program reads) then2 in
      (
        record {
          tables = base;
          resolved = lifted_ok (resolve_relation a read.table) base step;
          visible = check_read_visibility-All program visibility base seen;
          total = λ m. ground (arith, m, good);
        },
        check_reads-All program reads rest,
      )

  pub check_programs-All :
      (ps : List Program)
      → check_programs p a ps ≡ ok tt
      → All (λ (program : Program). All (Readable program) program.reads) ps
  unfolding check_programs
  check_programs-All [] h = tt
  check_programs-All (program ∷ rest) h =
      let (u, mine, others) =
        >>=-eq-ok (check_reads p a program program.reads) (λ u. check_programs p a rest) h in
      (check_reads-All program program.reads mine, check_programs-All rest others)
