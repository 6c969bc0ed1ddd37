-- ===== src/Mutation/Overrides.antt =====
-- What generateSubstitutions makes of defaults and values, and which parts of an image performLocalization
-- puts into the rules.
use ocm_controller.Prelude.{
  String, ◌≡◌, refl, Option, none, some, List, [], ◌∷◌, arith, lookup, insert, str_eq, eq_iff,
  if◌then◌else◌,
}
use ocm_controller.Prelude.Outcome.{Result, ok, context}
use ocm_controller.Ocm.Credentials.{◌>>=◌}
use ocm_controller.Status.Runtime.{Runtime}
use ocm_controller.Mutation.Services.{MutationServices, LocalizationRule, ImageName, put_text}
use ocm_controller.Mutation.Rules.{override_one, override, add_parts}

-- No key is there twice: a list that is a Go map.
pub data IsMap : List (String × String) → Type 0 where
  no_entry : IsMap []
  entry :
      {m : List (String × String)} (k v : String) → lookup k m ≡ none → IsMap m → IsMap ((k, v) ∷ m)

-- the value of an overridden field: the new one, if there are both
abbrev pub overridden : Option String → Option String → Option String
overridden new none = none
overridden none (some old) = some old
overridden (some new) (some old) = some new

lookup-insert :
    (k j v : String) (m : List (String × String))
    → lookup j (insert k v m) ≡ (if str_eq k j then some v else lookup j m)
lookup-insert k j v [] = refl
lookup-insert k j v ((i, w) ∷ m) =
    ground (arith, eq_iff k j, eq_iff i k, eq_iff i j, lookup-insert k j v m)

lookup-override_one :
    (k j v : String) (m : List (String × String))
    → lookup j (override_one k v (lookup k m) m)
      ≡ (if str_eq k j then overridden (some v) (lookup j m) else lookup j m)
lookup-override_one k j v m = ground (arith, eq_iff k j, lookup-insert k j v m)

-- The values replace fields of the template and add none: each field of the result is the field of
-- the values where the template and the values have it, that of the template where only the template
-- has it, and missing where the template does not have it.
pub lookup-override :
    (values templ : List (String × String)) (j : String)
    → IsMap values
    → lookup j (override values templ) ≡ overridden (lookup j values) (lookup j templ)
unfolding override
lookup-override [] templ j h = ground arith
lookup-override ((k, v) ∷ values) templ j (entry _ _ fresh h) =
    rw (lookup-override values (override_one k v (lookup k templ) templ) j h)
      (rw (lookup-override_one k j v templ) (ground (arith, eq_iff k j)))

-- A part of an image that a rule can ask for: the message of its error, its name, the path in the
-- file, and the text.
pub record Part : Type 0 where
  pub msg : String
  pub name : String
  pub path : String
  pub text : String

abbrev pub asked_parts : List Part → List Part
asked_parts [] = []
asked_parts (p ∷ ps) = let rest = asked_parts ps in if str_eq p.path "" then rest else p ∷ rest

abbrev pub parts_of : LocalizationRule → ImageName → List Part
parts_of l image =
    record {
      msg = "failed to add registry";
      name = "registry";
      path = l.registry;
      text = image.registry;
    }
    ∷ record {
      msg = "failed to add repository";
      name = "repository";
      path = l.repository;
      text = image.repository;
    }
    ∷ record {
      msg = "failed to add image ref name";
      name = "image";
      path = l.image;
      text = image.full_name;
    }
    ∷ record {
      msg = "failed to add identifier";
      name = "tag";
      path = l.tag;
      text = image.identifier;
    }
    ∷ []

module _ (r : Runtime) (s : MutationServices r) where
  open s use {Rules, add_rule}

  abbrev pub add_each : String → List Part → Rules → Result Rules
  add_each file [] rules = ok rules
  add_each file (p ∷ ps) rules =
      context p.msg (add_rule rules p.name file p.path (put_text p.text)) >>= λ rules'.
      add_each file ps rules'

  -- performLocalization adds a rule for exactly those parts of the image for which the localization
  -- rule has a path, in the order registry, repository, image and tag, and stops at the first of them
  -- that cannot be added.
  pub add_parts-asked_parts :
      (l : LocalizationRule) (image : ImageName) (rules : Rules)
      → add_parts r s l image rules ≡ add_each l.file (asked_parts (parts_of l image)) rules
  unfolding add_parts
  add_parts-asked_parts l image rules = ground arith
