-- ===== src/Jsonataddl/Conforms.antt =====
-- jsonataddl/input.go: the check of an object against its declared fields, as a property.
use tailapps.Prelude.{
  ◌≡◌, refl, ◌↔◌, ◌⊎◌, inl, inr, String, Bool, true, false, ◌&&◌, List, [], ◌∷◌, any, Option, none,
  some, Result, ok, err, guard, >>_iff, guard_iff, str_eq, str_ltb, if◌then◌else◌, All, Bool-cases,
}
use tailapps.Jsonataddl.Types.{Json, null, object, entries, Codec}
use tailapps.Jsonataddl.Contract.{
  InputField, MemberError, insert_field, sort_fields, insert_entry, sort_entries, find_entry,
  is_null, lifted, check_member, check_fields, check_known, check_object, validate_input_member,
  validate_input_object, unknown_field, must_be_a_non_null_object, field_is_required,
}

module _ (check : Json → InputField → Result MemberError (Unit {0})) where
  -- A declared field of an object: optional where it is missing; else null where that is allowed, or
  -- of its form.
  abbrev Fits : InputField → Option Json → Type 0
  Fits f none = f.optional ≡ true
  Fits f (some v) = ((is_null v && f.nullable) ≡ true) ⊎ (check v f ≡ ok tt)

  -- Every declared field fits, and every member is declared.
  abbrev pub Conforms : List InputField → Bool → Json → Type 0
  Conforms fields nullable (object m) =
      All (λ f. Fits f (find_entry f.name (entries m))) fields
      × All (λ (e : String × Json). any (λ f. str_eq f.name e.0) fields ≡ true) (entries m)
  Conforms fields nullable v = (is_null v && nullable) ≡ true

  settled_iff :
      (b : Bool) (name : String) (res : Result MemberError (Unit {0}))
      → ((if b then ok tt else lifted name res) ≡ ok tt) ↔ ((b ≡ true) ⊎ (res ≡ ok tt))
  settled_iff true name res = ((λ h. inl refl), λ h. refl)
  settled_iff false name (ok done) = ((λ h. inr refl), λ h. refl)
  settled_iff false name (err e) = ((λ h. cc), λ h. elim h [ inl bad ↦ cc | inr bad ↦ cc ])

  optional_iff :
      (b : Bool) (e : MemberError)
      → (◌≡◌ {A = Result MemberError (Unit {0})} (if b then ok tt else err e) (ok tt)) ↔ (b ≡ true)
  optional_iff true e = ((λ h. refl), λ h. refl)
  optional_iff false e = ((λ h. cc), λ h. cc)

  check_member_iff :
      (f : InputField) (o : Option Json) → (check_member check f o ≡ ok tt) ↔ Fits f o
  check_member_iff f none = optional_iff f.optional (field_is_required f.name)
  check_member_iff f (some v) = settled_iff (is_null v && f.nullable) f.name (check v f)

  check_fields_iff :
      (es : List (String × Json)) (fs : List InputField)
      → (check_fields check es fs ≡ ok tt) ↔ All (λ f. Fits f (find_entry f.name es)) fs
  unfolding check_fields
  check_fields_iff es [] = ((λ h. tt), λ h. refl)
  check_fields_iff es (f ∷ fs) =
      let both = >>_iff (check_member check f (find_entry f.name es)) (check_fields check es fs) in
      let head = check_member_iff f (find_entry f.name es) in
      let tail = check_fields_iff es fs in
      (
        (λ h. let pair = both.0 h in (head.0 pair.0, tail.0 pair.1)),
        λ h. both.1 (head.1 h.0, tail.1 h.1),
      )

check_known_iff :
    (fields : List InputField) (es : List (String × Json))
    → (check_known fields es ≡ ok tt)
      ↔ All (λ (e : String × Json). any (λ f. str_eq f.name e.0) fields ≡ true) es
unfolding check_known
check_known_iff fields [] = ((λ h. tt), λ h. refl)
check_known_iff fields (e ∷ es) =
    let test = any (λ f. str_eq f.name e.0) fields in
    let both = >>_iff (guard test (unknown_field e.0)) (check_known fields es) in
    let head = guard_iff test (unknown_field e.0) in
    let tail = check_known_iff fields es in
    (
      (λ h. let pair = both.0 h in (head.0 pair.0, tail.0 pair.1)),
      λ h. both.1 (head.1 h.0, tail.1 h.1),
    )

module _ {κ} (P : InputField → Type κ) where
  insert_field-All :
      (f : InputField) (fs : List InputField) → All P (insert_field f fs) ↔ All P (f ∷ fs)
  unfolding insert_field
  insert_field-All f [] = ((λ h. h), λ h. h)
  insert_field-All f (x ∷ xs) = elim (Bool-cases (str_ltb x.name f.name)) [
    | inl e ↦
        let ih = insert_field-All f xs in
        rw e
          ((λ h. let rest = ih.0 h.1 in (rest.0, (h.0, rest.1))), λ h. (h.1.0, ih.1 (h.0, h.1.1)))
    | inr e ↦ rw e ((λ h. h), λ h. h)
  ]

  sort_fields-All : (fs : List InputField) → All P (sort_fields fs) ↔ All P fs
  unfolding sort_fields
  sort_fields-All [] = ((λ h. h), λ h. h)
  sort_fields-All (f ∷ fs) =
      let one = insert_field-All f (sort_fields fs) in
      let ih = sort_fields-All fs in
      ((λ h. let pair = one.0 h in (pair.0, ih.0 pair.1)), λ h. one.1 (h.0, ih.1 h.1))

module _ {κ} (P : String × Json → Type κ) where
  insert_entry-All :
      (e : String × Json) (es : List (String × Json)) → All P (insert_entry e es) ↔ All P (e ∷ es)
  unfolding insert_entry
  insert_entry-All e [] = ((λ h. h), λ h. h)
  insert_entry-All e (x ∷ xs) = elim (Bool-cases (str_ltb x.0 e.0)) [
    | inl t ↦
        let ih = insert_entry-All e xs in
        rw t
          ((λ h. let rest = ih.0 h.1 in (rest.0, (h.0, rest.1))), λ h. (h.1.0, ih.1 (h.0, h.1.1)))
    | inr t ↦ rw t ((λ h. h), λ h. h)
  ]

  pub sort_entries-All : (es : List (String × Json)) → All P (sort_entries es) ↔ All P es
  unfolding sort_entries
  sort_entries-All [] = ((λ h. h), λ h. h)
  sort_entries-All (e ∷ es) =
      let one = insert_entry-All e (sort_entries es) in
      let ih = sort_entries-All es in
      ((λ h. let pair = one.0 h in (pair.0, ih.0 pair.1)), λ h. one.1 (h.0, ih.1 h.1))

check_object_iff :
    (check : Json → InputField → Result MemberError (Unit {0})) (v : Json)
    (fields : List InputField) (nullable : Bool)
    → (check_object check v fields nullable ≡ ok tt) ↔ Conforms check fields nullable v
unfolding check_object
check_object_iff check (object m) fields nullable =
    let both =
      >>_iff (check_fields check (entries m) (sort_fields fields))
        (check_known fields (sort_entries (entries m))) in
    let declared = check_fields_iff check (entries m) (sort_fields fields) in
    let sorted = sort_fields-All (λ f. Fits check f (find_entry f.name (entries m))) fields in
    let known = check_known_iff fields (sort_entries (entries m)) in
    let found =
      sort_entries-All (λ (e : String × Json). any (λ f. str_eq f.name e.0) fields ≡ true)
        (entries m) in
    (
      (λ h. let pair = both.0 h in (sorted.0 (declared.0 pair.0), found.0 (known.0 pair.1))),
      λ h. both.1 (declared.1 (sorted.1 h.0), known.1 (found.1 h.1)),
    )
check_object_iff check null fields nullable = guard_iff nullable must_be_a_non_null_object
check_object_iff check _ fields nullable = guard_iff false must_be_a_non_null_object

-- An input object is accepted exactly where it is null and that is allowed, or it is an object of
-- which every declared field fits - it is there and of its declared form, or null or missing where
-- that is allowed - and every member is declared. The order of the declarations plays no part.
pub validate_input_object_iff :
    (c : Codec) (v : Json) (fields : List InputField) (nullable : Bool)
    → (validate_input_object c v fields nullable ≡ ok tt)
      ↔ Conforms (validate_input_member c) fields nullable v
unfolding validate_input_object
validate_input_object_iff c v fields nullable =
    check_object_iff (validate_input_member c) v fields nullable
