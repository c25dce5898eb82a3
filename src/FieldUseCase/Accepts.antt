-- ===== src/FieldUseCase/Accepts.antt =====
-- What the field validator accepts, as a reader of the form would say it.
use ctfboard.Entity.Fields.{text_field, number_field, select_field, boolean_field, FieldType, Field}
use ctfboard.Base.{
  Bool-cases, Option-cases, [], ◌∷◌, none, some, true, inl, inr, refl, List, String, ℕ, ◌≡◌, ◌↔◌,
  ◌⊎◌, exists_where, str_eq, ◌≤◌, str_eq_iff, arith, ◌&&◌, not,
}
use ctfboard.Base.Int.{ℤ}
use ctfboard.FieldUseCase.{
  find_field, is_given, validate_value, check_form, atoi, len, accepts_value, check_value,
  check_values, check_required,
}

abbrev pub IsIn : String → List String → Type 0
IsIn value [] = ⊥
IsIn value (o ∷ os) = (o ≡ value) ⊎ IsIn value os

-- What a field of each type may hold
abbrev pub MayHold : FieldType → List String → String → Type 0
MayHold number_field options value = (z : ℤ) × (atoi value ≡ some z)
MayHold boolean_field options value = (value ≡ "true") ⊎ (value ≡ "false")
MayHold select_field options value = (options ≡ []) ⊎ IsIn value options
MayHold text_field options value = len value ≤ 500

abbrev pub IsFor : List Field → ℕ × String → Type 0
IsFor fields v = (f : Field) × (find_field v.0 fields ≡ some f) × MayHold f.field_type f.options v.1

abbrev pub All {ℓ κ} : {A : Type ℓ} → (A → Type κ) → List A → Type κ
All P [] = Unit
All P (x ∷ xs) = P x × All P xs

-- A form is right when each value is one that its field may hold, and no required field is left out.
abbrev pub Accepts : List Field → List (ℕ × String) → Type 0
Accepts fields values =
    All (IsFor fields) values × All (λ f. f.required ≡ true → is_given f.id values ≡ true) fields

exists_where-IsIn :
    (value : String) (os : List String)
    → (exists_where (λ p. str_eq p value) os ≡ true) ↔ IsIn value os
exists_where-IsIn value [] = (λ h. cc, λ h. absurd h)
exists_where-IsIn value (o ∷ os) = (
  λ h. elim (Bool-cases (str_eq o value)) [
    | inl e ↦ inl ((str_eq_iff o value).0 e)
    | inr e ↦ inr ((exists_where-IsIn value os).0 (ground (arith, h, e)))
  ],
  λ h. elim h [
    | inl e ↦ ground (arith, (str_eq_iff o value).1 e)
    | inr m ↦ ground (arith, (exists_where-IsIn value os).1 m)
  ],
)

accepts_value_iff :
    (t : FieldType) (options : List String) (value : String)
    → (accepts_value t options value ≡ true) ↔ MayHold t options value
unfolding accepts_value
accepts_value_iff number_field options value = elim (Option-cases (atoi value)) [
  | inl e ↦ (λ h. absurd (ground (arith, e, h)), λ h. absurd (ground (arith, e, h.1)))
  | inr (z, e) ↦ (λ h. (z, e), λ h. ground (arith, e))
]
accepts_value_iff boolean_field options value =
    ground (arith, str_eq_iff value "true", str_eq_iff value "false")
accepts_value_iff select_field [] value = (λ h. inl refl, λ h. refl)
accepts_value_iff select_field (o ∷ os) value = (
  λ h. inr ((exists_where-IsIn value (o ∷ os)).0 (ground (arith, h))),
  λ h. elim h [ inl e ↦ cc | inr m ↦ ground (arith, (exists_where-IsIn value (o ∷ os)).1 m) ],
)
accepts_value_iff text_field options value = ground arith

check_value_iff :
    (fields : List Field) (k : ℕ) (value : String)
    → (check_value (find_field k fields) value ≡ none) ↔ IsFor fields (k, value)
unfolding validate_value
check_value_iff fields k value = elim (Option-cases (find_field k fields)) [
  | inl e ↦ (λ h. absurd (ground (arith, e, h)), λ h. absurd (ground (arith, e, h.1)))
  | inr (f, e) ↦ (
    λ h. (f, e, (accepts_value_iff f.field_type f.options value).0 (ground (arith, e, h))),
    λ h. ground (arith, e, h.1, (accepts_value_iff h.0.field_type h.0.options value).1 h.2),
  )
]

check_values_iff :
    (fields : List Field) (values : List (ℕ × String))
    → (check_values fields values ≡ none) ↔ All (IsFor fields) values
unfolding check_values
check_values_iff fields [] = (λ h. tt, λ h. refl)
check_values_iff fields ((k, value) ∷ rest) =
    let one = check_value_iff fields k value in
    let more = check_values_iff fields rest in
    elim (Option-cases (check_value (find_field k fields) value)) [
      | inl e ↦ (λ h. (one.0 e, more.0 (ground (arith, e, h))), λ h. ground (arith, e, more.1 h.1))
      | inr (x, e) ↦
          (λ h. absurd (ground (arith, e, h)), λ h. absurd (ground (arith, e, one.1 h.0)))
    ]

check_required_iff :
    (fields : List Field) (values : List (ℕ × String))
    → (check_required fields values ≡ none)
      ↔ All (λ f. f.required ≡ true → is_given f.id values ≡ true) fields
unfolding check_required
check_required_iff [] values = (λ h. tt, λ h. refl)
check_required_iff (f ∷ fs) values =
    let more = check_required_iff fs values in
    elim (Bool-cases (f.required && not (is_given f.id values))) [
      | inl e ↦ (λ h. absurd (ground (arith, e, h)), λ h. absurd (ground (arith, e, h.0)))
      | inr e ↦ (
        λ h. (λ r. ground (arith, e, r), more.0 (ground (arith, e, h))),
        λ h. ground (arith, e, more.1 h.1),
      )
    ]

-- The validator lets a form pass exactly when it is right.
pub check_form_iff :
    (fields : List Field) (values : List (ℕ × String))
    → (check_form fields values ≡ none) ↔ Accepts fields values
unfolding check_form
check_form_iff fields values =
    let v = check_values_iff fields values in
    let r = check_required_iff fields values in
    elim (Option-cases (check_values fields values)) [
      | inl e ↦ (λ h. (v.0 e, r.0 (ground (arith, h, e))), λ h. ground (arith, e, r.1 h.1))
      | inr (x, e) ↦ (λ h. absurd (ground (arith, h, e)), λ h. absurd (ground (arith, v.1 h.0, e)))
    ]
