-- ===== src/Pipeline/Plain.antt =====
-- Values in which no function is left.
use ocm_controller.Prelude.{
  String, ◌≡◌, refl, Bool, true, not, ◌&&◌, some, List, [], ◌∷◌, lookup, All, arith, Option-cases,
  Bool-cases, inl, inr,
}
use ocm_controller.Prelude.Outcome.{ok, context, context-ok}
use ocm_controller.Ocm.Credentials.{bind_ok}
use ocm_controller.Pipeline.Values.{
  Value, text, scalar, object, array, Fields, no_fields, field, Items, no_items, item, has_prefix,
  split_dot, parameters_inject_func, inject_value, inject_map_value, inject_slice_value,
  process_value_functions, process_value, process_items, process_item,
}

-- No text that processValueFunctions looks at starts with a dollar sign. It does not look into a
-- slice that is an item of a slice.
unfoldable mutual
  pub plain_fields : Fields → Bool
  plain_fields no_fields = true
  plain_fields (field k v fs) = plain_value v && plain_fields fs

  pub plain_value : Value → Bool
  plain_value (text t) = not (has_prefix t "$")
  plain_value (scalar s) = true
  plain_value (object fs) = plain_fields fs
  plain_value (array is) = plain_items is

  pub plain_items : Items → Bool
  plain_items no_items = true
  plain_items (item v is) = plain_item v && plain_items is

  pub plain_item : Value → Bool
  plain_item (text t) = not (has_prefix t "$")
  plain_item (scalar s) = true
  plain_item (object fs) = plain_fields fs
  plain_item (array is) = true

plain_item-value : (v : Value) → plain_value v ≡ true → plain_item v ≡ true
unfolding plain_value
plain_item-value (text t) h = h
plain_item-value (scalar s) h = h
plain_item-value (object fs) h = h
plain_item-value (array is) h = refl

abbrev pub PlainParameters : List (String × Value) → Type 0
PlainParameters = All λ (p : String × Value). plain_value p.1 ≡ true

module _ (parameters : List (String × Value)) where
  mutual
    unfolding process_value_functions plain_value inject_map_value inject_slice_value

    keeps-plain_fields :
        (fs : Fields) → plain_fields fs ≡ true → process_value_functions parameters fs ≡ ok fs
    keeps-plain_fields no_fields h = refl
    keeps-plain_fields (field k v fs) h = ground (arith, keeps-plain_value v, keeps-plain_fields fs)

    keeps-plain_value : (v : Value) → plain_value v ≡ true → process_value parameters v ≡ ok v
    keeps-plain_value (text t) h = ground arith
    keeps-plain_value (scalar s) h = refl
    keeps-plain_value (object fs) h = ground (arith, keeps-plain_fields fs)
    keeps-plain_value (array is) h = ground (arith, keeps-plain_items is)

    keeps-plain_items : (is : Items) → plain_items is ≡ true → process_items parameters is ≡ ok is
    keeps-plain_items no_items h = refl
    keeps-plain_items (item v is) h = ground (arith, keeps-plain_item v, keeps-plain_items is)

    keeps-plain_item : (v : Value) → plain_item v ≡ true → process_item parameters v ≡ ok v
    keeps-plain_item (text t) h = ground arith
    keeps-plain_item (scalar s) h = refl
    keeps-plain_item (object fs) h = ground (arith, keeps-plain_fields fs)
    keeps-plain_item (array is) h = refl

lookup-plain :
    (key : String) (ps : List (String × Value)) (v : Value)
    → PlainParameters ps
    → lookup key ps ≡ some v
    → plain_value v ≡ true
lookup-plain key [] v a h = cc
lookup-plain key ((k, w) ∷ ps) v (p, a) h = ground (arith, lookup-plain key ps v a)

module _ (parameters : List (String × Value)) (plain_parameters : PlainParameters parameters) where
  injected-plain :
      (t : String) (v : Value) → inject_value parameters t ≡ ok v → plain_value v ≡ true
  unfolding inject_value parameters_inject_func
  injected-plain t v h = elim (Option-cases (split_dot t)) [
    | inl no_dot ↦ absurd (ground arith)
    | inr ((func_name, key), split) ↦ elim (Option-cases (lookup key parameters)) [
      | inl missing ↦ absurd (ground arith)
      | inr (w, found) ↦ ground (arith, lookup-plain key parameters w plain_parameters found)
    ]
  ]

  map_value-plain :
      (t : String) (v : Value)
      → context "failed to inject value" (inject_map_value parameters t) ≡ ok v
      → plain_value v ≡ true
  unfolding inject_map_value plain_value
  map_value-plain t v h = elim (Bool-cases (has_prefix t "$")) [
    | inl dollar ↦ injected-plain t v (ground arith)
    | inr other ↦ ground arith
  ]

  slice_value-plain :
      (t : String) (v : Value)
      → context "failed to inject value" (inject_slice_value parameters t) ≡ ok v
      → plain_item v ≡ true
  unfolding inject_slice_value plain_value
  slice_value-plain t v h = elim (Bool-cases (has_prefix t "$")) [
    | inl dollar ↦ plain_item-value v (injected-plain t v (ground arith))
    | inr other ↦ ground arith
  ]

  mutual
    unfolding process_value_functions plain_value

    process_fields-plain :
        (fs fs' : Fields) → process_value_functions parameters fs ≡ ok fs' → plain_fields fs' ≡ true
    process_fields-plain no_fields fs' h = ground arith
    process_fields-plain (field k v fs) fs' h =
        let (v₁, first, h₁) = bind_ok (process_value parameters v) _ h in
        let (fs₁, rest, h₂) = bind_ok (process_value_functions parameters fs) _ h₁ in
        ground (arith, process_value-plain v v₁ first, process_fields-plain fs fs₁ rest)

    process_value-plain :
        (v v' : Value) → process_value parameters v ≡ ok v' → plain_value v' ≡ true
    process_value-plain (text t) v' h = map_value-plain t v' h
    process_value-plain (scalar s) v' h = ground arith
    process_value-plain (object fs) v' h =
        let (fs₁, inner, h₁) =
          bind_ok (context "failed to process values" (process_value_functions parameters fs)) _
            h in
        ground (arith, process_fields-plain fs fs₁ (context-ok _ _ inner))
    process_value-plain (array is) v' h =
        let (is₁, inner, h₁) = bind_ok (process_items parameters is) _ h in
        ground (arith, process_items-plain is is₁ inner)

    process_items-plain :
        (is is' : Items) → process_items parameters is ≡ ok is' → plain_items is' ≡ true
    process_items-plain no_items is' h = ground arith
    process_items-plain (item v is) is' h =
        let (v₁, first, h₁) = bind_ok (process_item parameters v) _ h in
        let (is₁, rest, h₂) = bind_ok (process_items parameters is) _ h₁ in
        ground (arith, process_item-plain v v₁ first, process_items-plain is is₁ rest)

    process_item-plain : (v v' : Value) → process_item parameters v ≡ ok v' → plain_item v' ≡ true
    process_item-plain (text t) v' h = slice_value-plain t v' h
    process_item-plain (scalar s) v' h = ground arith
    process_item-plain (object fs) v' h =
        let (fs₁, inner, h₁) =
          bind_ok (context "failed to process values" (process_value_functions parameters fs)) _
            h in
        ground (arith, process_fields-plain fs fs₁ (context-ok _ _ inner))
    process_item-plain (array is) v' h = ground arith

  -- Texts in a slice that is itself an item of a slice do not count here: processValueFunctions does not
  -- look at them. If no other text of a parameter starts with a dollar sign, then no other text of the
  -- values does that processValueFunctions gives without an error, and processing them again changes
  -- nothing.
  pub process_value_functions-idempotent :
      (values processed : Fields)
      → process_value_functions parameters values ≡ ok processed
      → (plain_fields processed ≡ true)
        × (process_value_functions parameters processed ≡ ok processed)
  process_value_functions-idempotent values processed h =
      let plain_result = process_fields-plain values processed h in
      (plain_result, keeps-plain_fields parameters processed plain_result)
