-- ===== src/Mutation/Values.antt =====
-- extractSubpath, splitSubpath and convertMap of controllers/mutation_reconcile_looper.go, on what
-- yaml.v3 decodes: a mapping with texts as keys is a map[string]any, any other is a map[any]any.
use ocm_controller.Prelude.{String, Option, none, some, List, [], ◌∷◌, if◌then◌else◌, str_eq}
use ocm_controller.Prelude.Split.{split}

-- a key of a map[any]any: a text, or anything else that YAML has, by its text in YAML
pub data Key : Type 0 where
  text other : String → Key

mutual
  pub data Value : Type 0 where
    -- a number, a truth value, a text or a list, by its text in YAML
    leaf : String → Value
    text_map : TextMap → Value
    any_map : AnyMap → Value

  -- map[string]any
  pub data TextMap : Type 0 where
    no_texts : TextMap
    with_text : String → Value → TextMap → TextMap

  -- map[any]any
  pub data AnyMap : Type 0 where
    no_keys : AnyMap
    with_key : Key → Value → AnyMap → AnyMap

unfoldable pub at_text : String → TextMap → Option Value
at_text k no_texts = none
at_text k (with_text j v m) = let later = at_text k m in if str_eq j k then some v else later

unfoldable mutual
  pub convert_map : AnyMap → TextMap
  convert_map no_keys = no_texts
  convert_map (with_key (text k) v m) = with_text k (convert_value v) (convert_map m)
  convert_map (with_key (other k) v m) = convert_map m

  pub convert_value : Value → Value
  convert_value (leaf t) = leaf t
  convert_value (text_map m) = text_map m
  convert_value (any_map m) = text_map (convert_map m)

-- the two cases of both switches on the type of a value
unfoldable pub as_map : Value → Option TextMap
as_map (leaf t) = none
as_map (text_map m) = some m
as_map (any_map m) = some (convert_map m)

unfoldable pub map_at : String → TextMap → Option TextMap
map_at key curr = elim (at_text key curr) [ none ↦ none | some value ↦ as_map value ]

-- the loop over the keys, which returns at the last one
unfoldable pub follow_keys : TextMap → List String → Option TextMap
follow_keys curr [] = none
follow_keys curr (key ∷ []) = map_at key curr
follow_keys curr (key ∷ (next ∷ keys)) = elim (map_at key curr) [
  | none ↦ none
  | some m ↦ follow_keys m (next ∷ keys)
]

abbrev pub split_subpath : String → List String
split_subpath subpath = split b'.' subpath

unfoldable pub extract_subpath : TextMap → String → Option TextMap
extract_subpath data' subpath = follow_keys data' (split_subpath subpath)
