-- ===== src/Examples/MutationParts.antt =====
-- The parts of a mutation: paths into values, defaults, image parts, and access specifications.
use Prim.Native.String.{◌++◌}
use ocm_controller.Prelude.{◌≡◌, ◌≢◌, ◌↔◌, refl, String, some, List, [], ◌∷◌, lookup, eq_iff, arith}
use mathlib.Core.Option as Opt
use ocm_controller.Prelude.Outcome.{Result, ok, out_of_fuel}
use ocm_controller.Mutation.Values.{
  TextMap, no_texts, with_text, AnyMap, with_key, no_keys, text, other, leaf, text_map, any_map,
  at_text, convert_map, convert_value, extract_subpath,
}
use ocm_controller.Mutation.Subpath.{
  at_key, convert_map-at_key, then_extract, extract_subpath-append,
}
use ocm_controller.Mutation.Services.{AccessSpec, oci_artifact, local_blob, ImageName}
use ocm_controller.Mutation.Access.{
  find_reference, IsSettled, image, global, find_reference-IsSettled,
}
use ocm_controller.Mutation.Rules.{override, add_parts}
use ocm_controller.Mutation.Overrides.{
  entry, no_entry, overridden, lookup-override, asked_parts, parts_of, add_each,
  add_parts-asked_parts,
}
use ocm_controller.Examples.Conditions.{conditions}
use ocm_controller.Examples.Mutations.{services, rule}

abbrev given : List (String × String)
given = ("replicas", "3") ∷ ("unknown", "1") ∷ []

abbrev defaults : List (String × String)
defaults = ("replicas", "1") ∷ ("image", "app") ∷ []

lookup-override_example :
    lookup "replicas" (override given defaults)
    ≡ overridden (lookup "replicas" given) (lookup "replicas" defaults)
lookup-override_example =
    lookup-override given defaults "replicas"
      (entry "replicas" "3" refl (entry "unknown" "1" refl no_entry))

abbrev app_image : ImageName
app_image = record {
  registry = "ghcr.io";
  repository = "app";
  full_name = "ghcr.io/app:v2";
  identifier = "v2";
}

add_parts-asked_parts_example :
    add_parts conditions services rule app_image []
    ≡ add_each conditions services "deploy.yaml" (asked_parts (parts_of rule app_image)) []
add_parts-asked_parts_example = add_parts-asked_parts conditions services rule app_image []

abbrev mixed : AnyMap
mixed =
    with_key (other "1") (leaf "one")
      (with_key (text "a") (any_map (with_key (text "b") (leaf "2") no_keys)) no_keys)

convert_map-at_key_example :
    at_text "a" (convert_map mixed) ≡ Opt.map convert_value (at_key "a" mixed)
convert_map-at_key_example = convert_map-at_key "a" mixed

abbrev nested : TextMap
nested =
    with_text "a"
      (any_map (with_key (text "b") (text_map (with_text "c" (leaf "2") no_texts)) no_keys))
      no_texts

extract_subpath-append_example :
    extract_subpath nested ("a" ++ ("." ++ "b")) ≡ then_extract (extract_subpath nested "a") "b"
extract_subpath-append_example = extract_subpath-append nested "a" "b"

abbrev resolve : String → Result AccessSpec
resolve t = ok (oci_artifact "ghcr.io/app:v2")

abbrev app_reference : String
app_reference = "ghcr.io/app:v2"

app_named : app_reference ≢ ""
app_named = λ h. ground (arith, (eq_iff app_reference "").1 h)

find_reference-IsSettled_example :
    (find_reference resolve 2 (local_blob (some "spec")) ≢ out_of_fuel)
    ↔ IsSettled resolve 1 (local_blob (some "spec"))
find_reference-IsSettled_example = find_reference-IsSettled resolve 1 (local_blob (some "spec"))

-- within two rounds: the local blob, and the image behind it
reference_settles : IsSettled resolve 1 (local_blob (some "spec"))
reference_settles =
    global "spec" (oci_artifact "ghcr.io/app:v2") refl (image "ghcr.io/app:v2" app_named)
