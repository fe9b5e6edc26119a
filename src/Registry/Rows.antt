-- ===== src/Registry/Rows.antt =====
-- internal/definition/registry.go: what the statements of Create, mutate and Delete make of the
-- rows of definition_elements.
use tailapps.Prelude.{
  ◌≡◌, refl, ap, sym, ◌∙◌, String, true, false, not, List, [], ◌∷◌, ◌++◌, ok, >>=-eq-ok, str_eq,
  eq_iff, if◌then◌else◌, map, filter, any, Bool-cases, arith, inl, inr, All,
}
use mathlib.Core.List.{append_assoc, append-nil}
use tailapps.Registry.Tables.{Sources, Host, App, Element}
use tailapps.Registry.Drafts.{
  is_named, belongs, sources_of, element_row, insert_element, insert_elements,
}

insert_element_lem :
    (row : Element) (es es' : List Element) → insert_element row es ≡ ok es' → es' ≡ es ++ row ∷ []
unfolding insert_element
insert_element_lem row es es' h = ground (arith, h)

pub insert_elements_lem :
    (h : Host) (name : String) (s : Sources) (es es' : List Element)
    → insert_elements h name s es ≡ ok es'
    → es' ≡ es ++ map (element_row h name) s
unfolding insert_elements
insert_elements_lem h name [] es es' done = (let e : es ≡ es' = cc in sym e) ∙ sym (append-nil es)
insert_elements_lem h name (entry ∷ rest) es es' done =
    let row = element_row h name entry in
    let (mid, first, later) =
      >>=-eq-ok (insert_element row es) (λ (m : List Element). insert_elements h name rest m)
        done in
    insert_elements_lem h name rest mid es' later
    ∙ ap (λ l. l ++ map (element_row h name) rest) (insert_element_lem row es mid first)
    ∙ append_assoc es (row ∷ []) (map (element_row h name) rest)

-- What an app holds after its elements were replaced by others.
pub sources_of-new :
    (h : Host) (n name : String) (s : Sources)
    → sources_of n (map (element_row h name) s) ≡ (if str_eq name n then s else [])
unfolding sources_of element_row
sources_of-new h n name [] = ground arith
sources_of-new h n name (entry ∷ rest) = ground (arith, sources_of-new h n name rest)

pub sources_of-append :
    (n : String) (xs ys : List Element)
    → sources_of n (xs ++ ys) ≡ sources_of n xs ++ sources_of n ys
unfolding sources_of
sources_of-append n [] ys = refl
sources_of-append n (x ∷ xs) ys = ground (arith, sources_of-append n xs ys)

pub sources_of-rest :
    (n name : String) (es : List Element)
    → sources_of n (filter (λ e. not (belongs name e)) es)
      ≡ (if str_eq name n then [] else sources_of n es)
unfolding sources_of
sources_of-rest n name [] = ground arith
sources_of-rest n name (x ∷ xs) =
    ground
      (arith, sources_of-rest n name xs, eq_iff x.tailapp name, eq_iff x.tailapp n, eq_iff name n)

-- What every app holds after the elements of one were replaced.
pub sources_of-stored :
    (h : Host) (n name : String) (s : Sources) (es es' : List Element)
    → insert_elements h name s (filter (λ e. not (belongs name e)) es) ≡ ok es'
    → sources_of n es' ≡ (if str_eq name n then s else sources_of n es)
sources_of-stored h n name s es es' done =
    let kept = filter (λ e. not (belongs name e)) es in
    rw
      (
        insert_elements_lem h name s kept es' done,
        sources_of-append n kept (map (element_row h name) s),
        sources_of-rest n name es,
        sources_of-new h n name s,
      )
      (ground (arith, append-nil (sources_of n es)))

-- The app of every element is there, as the foreign key asks.
abbrev pub Owned : List App → List Element → Type 0
Owned apps es = All (λ (e : Element). any (is_named e.tailapp) apps ≡ true) es

pub Owned-none :
    (n : String) (apps : List App) (es : List Element)
    → Owned apps es
    → any (is_named n) apps ≡ false
    → sources_of n es ≡ []
unfolding sources_of
Owned-none n apps [] h none_named = refl
Owned-none n apps (e ∷ es) h none_named = elim (Bool-cases (str_eq e.tailapp n)) [
  | inl same ↦
      let p : e.tailapp ≡ n = ground (arith, same, eq_iff e.tailapp n) in
      let bad : true ≡ false =
        sym h.0 ∙ ap (λ (m : String). any (is_named m) apps) p ∙ none_named in
      cc
  | inr other ↦ rw other (Owned-none n apps es h.1 none_named)
]

pub Owned-new :
    (h : Host) (name : String) (apps : List App) (s : Sources)
    → any (is_named name) apps ≡ true
    → Owned apps (map (element_row h name) s)
unfolding element_row
Owned-new h name apps [] found = tt
Owned-new h name apps (entry ∷ rest) found = (found, Owned-new h name apps rest found)
