-- ===== src/Pipeline/Values.antt =====
-- processValueFunctions and its helpers of controllers/resourcepipeline_controller.go. A Go map is a
-- list of fields, taken in some order; the values are dropped where there is an error, so a change of
-- a map in place is a new map.
use Prim.Native.Char.{code}
use Prim.Native.String.{String, [], ◌∷◌}
use ocm_controller.Prelude.{
  Bool, true, false, Option, none, some, List, lookup, if◌then◌else◌, nat_eq, str_eq, ◌&&◌,
}
use ocm_controller.Prelude.Outcome.{Result, ok, err, plain, context}
use ocm_controller.Ocm.Credentials.{◌>>=◌}

-- What json.Unmarshal puts into an `any`; a number, a Boolean or null is a scalar.
mutual
  pub data Value : Type 0 where
    text : String → Value
    scalar : String → Value
    object : Fields → Value
    array : Items → Value

  pub data Fields : Type 0 where
    no_fields : Fields
    field : String → Value → Fields → Fields

  pub data Items : Type 0 where
    no_items : Items
    item : Value → Items → Items

-- strings.HasPrefix
unfoldable pub has_prefix : String → String → Bool
has_prefix s [] = true
has_prefix [] (d ∷ p) = false
has_prefix (c ∷ s) (d ∷ p) = nat_eq (code c) (code d) && has_prefix s p

-- the texts before and after the first dot, if there is one
unfoldable pub split_dot : String → Option (String × String)
split_dot [] = none
split_dot (c ∷ s) =
    let rest = split_dot s in
    if nat_eq (code c) b'.'
    then some ("", s)
    else elim rest [ none ↦ none | some (f, key) ↦ some (c ∷ f, key) ]

module _ (parameters : List (String × Value)) where
  unfoldable pub parameters_inject_func : String → Result Value
  parameters_inject_func key = elim (lookup key parameters) [
    | some v ↦ ok v
    | none ↦ err (plain "parameter with key not found")
  ]

  unfoldable pub inject_value : String → Result Value
  inject_value value = elim (split_dot value) [
    | none ↦ err (plain "expected inject function name to be of format $func.key")
    | some (func_name, key) ↦
        if str_eq key ""
        then err (plain "missing value from func key")
        else if has_prefix func_name "$parameters"
        then parameters_inject_func key
        else err (plain "unknown inject function")
  ]

  -- injectMapValue
  unfoldable pub inject_map_value : String → Result Value
  inject_map_value t = if has_prefix t "$" then inject_value t else ok (text t)

  -- injectSliceValue
  unfoldable pub inject_slice_value : String → Result Value
  inject_slice_value t =
      if has_prefix t "$" then context "failed to inject value" (inject_value t) else ok (text t)

  unfoldable mutual
    pub process_value_functions : Fields → Result Fields
    process_value_functions no_fields = ok no_fields
    process_value_functions (field k v fs) = do
      v' ← process_value v
      fs' ← process_value_functions fs
      ok (field k v' fs')

    -- the switch on the type of a map's value
    pub process_value : Value → Result Value
    process_value (text t) = context "failed to inject value" (inject_map_value t)
    process_value (scalar s) = ok (scalar s)
    process_value (object fs) = do
      fs' ← context "failed to process values" (process_value_functions fs)
      ok (object fs')
    process_value (array is) = do is' ← process_items is; ok (array is')

    -- the loop over a slice
    pub process_items : Items → Result Items
    process_items no_items = ok no_items
    process_items (item v is) = do v' ← process_item v; is' ← process_items is; ok (item v' is')

    -- the switch on the type of a slice's item
    pub process_item : Value → Result Value
    process_item (text t) = context "failed to inject value" (inject_slice_value t)
    process_item (scalar s) = ok (scalar s)
    process_item (object fs) = do
      fs' ← context "failed to process values" (process_value_functions fs)
      ok (object fs')
    process_item (array is) = ok (array is)
