-- ===== src/Projection/Kept.antt =====
-- internal/projection/projection.go: tables whose contents statements keep.
use tailapps.Prelude.{String, ◌≡◌, ap, ◌∙◌, List, [], ◌∷◌, ok, All}
use tailapps.Projection.Types.{Table}
use tailapps.Projection.Host.{Host}
use tailapps.Projection.Executed.{Executes}

-- The contents of a table of the name, in the tailapp's database.
module _ (host : Host) {Contents : Type 0} (contents : String → host.Rows → Contents) where
  open host use {Rows, exec, schema_objects, marshal_table}

  -- The contents of every table of a list.
  abbrev pub Kept : List (String × Table) → Rows → Rows → Type 0
  Kept tables r r' = All (λ (e : String × Table). contents e.0 r ≡ contents e.0 r') tables

  -- A statement that changes the contents of none of the tables.
  abbrev pub Keeps : List (String × Table) → String → Type 0
  Keeps tables s = (r r' : Rows) → exec s r ≡ ok r' → Kept tables r r'

  Kept-refl : (tables : List (String × Table)) (r r' : Rows) → r ≡ r' → Kept tables r r'
  Kept-refl [] r r' e = tt
  Kept-refl ((name, t) ∷ rest) r r' e = (ap (contents name) e, Kept-refl rest r r' e)

  pub Kept-trans :
      (tables : List (String × Table)) (r m r' : Rows)
      → Kept tables r m
      → Kept tables m r'
      → Kept tables r r'
  Kept-trans [] r m r' h k = tt
  Kept-trans ((name, t) ∷ rest) r m r' h k = (h.0 ∙ k.0, Kept-trans rest r m r' h.1 k.1)

  pub Executes-Kept :
      (tables : List (String × Table)) (ss : List String) (r r' : Rows)
      → All (Keeps tables) ss
      → Executes host ss r r'
      → Kept tables r r'
  Executes-Kept tables [] r r' keep done = Kept-refl tables r r' done
  Executes-Kept tables (s ∷ ss) r r' keep done =
      let (m, step, later) = done in
      Kept-trans tables r m r' (keep.0 r m step) (Executes-Kept tables ss m r' keep.1 later)
