-- ===== src/Jsonataddl/Owners.antt =====
-- jsonataddl/compile.go: who writes which table, after validateTopology.
use tailapps.Prelude.{
  ◌≡◌, refl, ap, sym, ◌∙◌, inl, inr, String, Bool, true, false, List, [], ◌∷◌, ◌++◌, Option, none,
  some, ok, str_eq, eq_iff, Bool-cases,
}
use tailapps.Jsonataddl.Types.{Table, Program}
use tailapps.Jsonataddl.Views.{find_key}
use tailapps.Jsonataddl.Topology.{Claims, set_writer, claim}
use tailapps.Jsonataddl.Lookups.{
  Distinct, Distinct-append, find_key-append_other, find_key-append_new, written,
  find_key-set_writer,
}

-- The declared writes of programs: each name with its program, in their order.
abbrev pub pairs : String → List String → List (String × String)
pairs program [] = []
pairs program (name ∷ rest) = (name, program) ∷ pairs program rest

abbrev pub declared_writes : List Program → List (String × String)
declared_writes [] = []
declared_writes (program ∷ rest) = pairs program.name program.writes ++ declared_writes rest

-- A table's writer, where one has been claimed, and none before.
abbrev pub OwnedBy : Option String → Table → Type 0
OwnedBy (some w) t = t.writer ≡ w
OwnedBy none t = t.writer ≡ ""

pub record Tracked (c : Claims) : Type 0 where
  pub distinct : Distinct c.writers
  pub owned :
      (n : String) (t : Table) → find_key n c.tables ≡ some t → OwnedBy (find_key n c.writers) t
  pub declared :
      (n w : String) → find_key n c.writers ≡ some w → (t : Table) × (find_key n c.tables ≡ some t)

written-some :
    (b : Bool) (w : String) (o : Option Table) (t : Table)
    → o ≡ some t
    → (u : Table) × (written b w o ≡ some u)
written-some true w (some u) t h = (record u { writer = w }, refl)
written-some true w none t h = cc
written-some false w o t h = (t, h)

written_owned :
    (w : String) (o : Option Table) (t : Table) → written true w o ≡ some t → t.writer ≡ w
written_owned w (some u) t h =
    let e : record u { writer = w } ≡ t = cc in ap (λ (x : Table). x.writer) (sym e)
written_owned w none t h = cc

-- The state after a claim.
abbrev claimed : String → String → Claims → Claims
claimed program name c = record {
  writers = c.writers ++ (name, program) ∷ [];
  tables = set_writer name program c.tables;
}

claimed-Tracked :
    (program name : String) (c : Claims) (t : Table)
    → find_key name c.tables ≡ some t
    → find_key name c.writers ≡ none
    → Tracked c
    → Tracked (claimed program name c)
claimed-Tracked program name c t here free tracked = record {
  distinct = Distinct-append name program c.writers free tracked.distinct;
  owned = λ n u h. elim (Bool-cases (str_eq name n)) [
    | inl e ↦
        let found : written true program (find_key n c.tables) ≡ some u =
          (ap (λ b. written b program (find_key n c.tables)) (sym e)
            ∙ sym (find_key-set_writer n name program c.tables)
            ∙ h) in
        let new : find_key n (c.writers ++ (name, program) ∷ []) ≡ some program =
          rw (sym ((eq_iff name n).0 e)) (find_key-append_new name program c.writers free) in
        rw new (written_owned program (find_key n c.tables) u found)
    | inr e ↦
        let found : find_key n c.tables ≡ some u =
          (ap (λ b. written b program (find_key n c.tables)) (sym e)
            ∙ sym (find_key-set_writer n name program c.tables)
            ∙ h) in
        rw (find_key-append_other n name program c.writers e) (tracked.owned n u found)
  ];
  declared = λ n w h.
      let (u, found) = is_declared n w h in
      let (v, e) = written-some (str_eq name n) program (find_key n c.tables) u found in
      (v, find_key-set_writer n name program c.tables ∙ e);
}
  where
    is_declared :
        (n w : String)
        → find_key n (c.writers ++ (name, program) ∷ []) ≡ some w
        → (u : Table) × (find_key n c.tables ≡ some u)
    is_declared n w h = elim (Bool-cases (str_eq name n)) [
      | inl e ↦ (t, rw (sym ((eq_iff name n).0 e)) here)
      | inr e ↦ tracked.declared n w (sym (find_key-append_other n name program c.writers e) ∙ h)
    ]

pub claim-Tracked :
    (program name : String) (c c' : Claims) (o : Option Table) (prior : Option String)
    → find_key name c.tables ≡ o
    → find_key name c.writers ≡ prior
    → claim program name c o prior ≡ ok c'
    → Tracked c
    → Tracked c' × (c'.writers ≡ c.writers ++ (name, program) ∷ [])
claim-Tracked program name c c' none prior e f h tracked = cc
claim-Tracked program name c c' (some t) (some w) e f h tracked = cc
claim-Tracked program name c c' (some t) none e f h tracked =
    let same : claimed program name c ≡ c' = cc in
    rw (sym same) (claimed-Tracked program name c t e f tracked, refl)
