-- ===== src/Mutation/Subpath.antt =====
-- What extractSubpath and convertMap find.
use Prim.Native.Char.{Char}
use Prim.Native.String.{◌++◌}
use Prim.Native.String.append
use mathlib.Core.List.{◌++◌ as list_append}
use mathlib.Core.Option as Opt
use ocm_controller.Prelude.{
  String, ◌≡◌, refl, sym, ap, ◌∙◌, Option, none, some, List, [], ◌∷◌, if◌then◌else◌, str_eq, arith,
}
use ocm_controller.Prelude.Split.{split, IsParts, parts, split-IsParts, split-append}
use ocm_controller.Mutation.Values.{
  text, other, Value, TextMap, AnyMap, no_keys, with_key, at_text, convert_map, convert_value,
  map_at, follow_keys, extract_subpath,
}

-- The value at a text in a map with any keys.
unfoldable pub at_key : String → AnyMap → Option Value
at_key k no_keys = none
at_key k (with_key (text j) v m) = let later = at_key k m in if str_eq j k then some v else later
at_key k (with_key (other j) v m) = at_key k m

-- convertMap keeps every text key with its value, itself converted, and has no other key.
pub convert_map-at_key :
    (k : String) (m : AnyMap) → at_text k (convert_map m) ≡ Opt.map convert_value (at_key k m)
unfolding at_text at_key convert_map
convert_map-at_key k no_keys = refl
convert_map-at_key k (with_key (text j) v m) = ground (arith, convert_map-at_key k m)
convert_map-at_key k (with_key (other j) v m) = convert_map-at_key k m

abbrev pub then_follow : Option TextMap → List String → Option TextMap
then_follow none keys = none
then_follow (some m) keys = follow_keys m keys

-- what holds of each map that a step may find
step_append :
    (o : Option TextMap) (keys others : List String)
    → ((m : TextMap)
        → follow_keys m (list_append keys others) ≡ then_follow (follow_keys m keys) others)
    → then_follow o (list_append keys others) ≡ then_follow (then_follow o keys) others
step_append none keys others h = refl
step_append (some m) keys others h = h m

first_step :
    (m : TextMap) (key : String) (others : List String)
    → IsParts others
    → follow_keys m (key ∷ others) ≡ then_follow (map_at key m) others
unfolding follow_keys
first_step m key _ (parts t ts) = ground arith

follow_keys-append :
    (m : TextMap) (key : String) (keys others : List String)
    → IsParts others
    → follow_keys m (key ∷ list_append keys others)
      ≡ then_follow (follow_keys m (key ∷ keys)) others
unfolding follow_keys
follow_keys-append m key [] others h = first_step m key others h
follow_keys-append m key (next ∷ keys) others h =
    first_step m key (next ∷ list_append keys others) (parts _ _)
    ∙ step_append (map_at key m) (next ∷ keys) others
        (λ m'. follow_keys-append m' next keys others h)
    ∙ ap (λ o. then_follow o others) (sym (first_step m key (next ∷ keys) (parts _ _)))

follow_parts :
    (m : TextMap) (first others : List String)
    → IsParts first
    → IsParts others
    → follow_keys m (list_append first others) ≡ then_follow (follow_keys m first) others
follow_parts m _ others (parts t ts) h = follow_keys-append m t ts others h

abbrev dot : Char
dot = "."

unfoldable pub then_extract : Option TextMap → String → Option TextMap
then_extract none subpath = none
then_extract (some m) subpath = extract_subpath m subpath

same_step :
    (o : Option TextMap) (subpath : String)
    → then_follow o (split b'.' subpath) ≡ then_extract o subpath
unfolding then_extract extract_subpath
same_step none subpath = refl
same_step (some m) subpath = refl

-- A subpath that is two subpaths with a dot between them leads where the second one leads from the
-- map that the first one finds, and nowhere if the first one finds none.
pub extract_subpath-append :
    (m : TextMap) (first second : String)
    → extract_subpath m (first ++ ("." ++ second)) ≡ then_extract (extract_subpath m first) second
unfolding extract_subpath
extract_subpath-append m first second =
    rw
      (append.cons dot String.[] second, append.nil second, split-append b'.' first dot second refl)
      (follow_parts m (split b'.' first) (split b'.' second) (split-IsParts _ _) (split-IsParts _ _)
        ∙ same_step (follow_keys m (split b'.' first)) second)
