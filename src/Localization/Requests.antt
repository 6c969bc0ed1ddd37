-- ===== src/Localization/Requests.antt =====
-- makeRequestsForLocalizations of controllers/localization_controller.go: the localizations that a
-- change concerns, each once.
use Prim.Native.String.{◌++◌}
use ocm_controller.Prelude.{
  String, ◌≡◌, ◌↔◌, inl, inr, true, false, List, [], ◌∷◌, map, arith, All, In, if◌then◌else◌,
  str_eq, eq_iff, Bool-cases,
}
use ocm_controller.Prelude.TextOrder.{
  text_less, text_less-irreflexive, text_less-transitive, text_less-total,
}
use ocm_controller.Component.Names.{NamespacedName}

-- fmt.Sprintf("%s/%s", namespace, name)
abbrev pub key_text : NamespacedName → String
key_text key = key.namespace ++ ("/" ++ key.name)

-- slices.SortFunc by the text of the key
unfoldable pub insert_key : NamespacedName → List NamespacedName → List NamespacedName
insert_key k [] = k ∷ []
insert_key k (x ∷ xs) =
    let rest = insert_key k xs in
    if text_less (key_text x) (key_text k) then x ∷ rest else k ∷ x ∷ xs

unfoldable pub sort_keys : List NamespacedName → List NamespacedName
sort_keys [] = []
sort_keys (k ∷ ks) = insert_key k (sort_keys ks)

-- slices.CompactFunc: of neighbours with the same key the first one stays
abbrev pub compact_after : NamespacedName → List NamespacedName → List NamespacedName
compact_after k [] = []
compact_after k (x ∷ xs) =
    let same = compact_after k xs in
    let other = compact_after x xs in if str_eq (key_text k) (key_text x) then same else x ∷ other

unfoldable pub compact : List NamespacedName → List NamespacedName
compact [] = []
compact (k ∷ ks) = k ∷ compact_after k ks

unfoldable pub make_requests : List NamespacedName → List NamespacedName
make_requests ks = compact (sort_keys ks)

abbrev pub texts : List NamespacedName → List String
texts = map key_text

-- no text of the list stands before `t`
abbrev Bounded : String → List String → Type 0
Bounded t = All λ x. text_less x t ≡ false

abbrev Sorted : List String → Type 0
Sorted [] = Unit
Sorted (t ∷ ts) = Bounded t ts × Sorted ts

-- each text stands before those after it, so none comes twice
abbrev pub Increasing : List String → Type 0
Increasing [] = Unit
Increasing (t ∷ ts) = All (λ x. text_less t x ≡ true) ts × Increasing ts

In-insert_key :
    (t : String) (k : NamespacedName) (ks : List NamespacedName)
    → In t (texts (insert_key k ks)) ↔ In t (texts (k ∷ ks))
unfolding insert_key
In-insert_key t k [] = (λ h. h, λ h. h)
In-insert_key t k (x ∷ xs) = ground (arith, In-insert_key t k xs)

In-sort_keys :
    (t : String) (ks : List NamespacedName) → In t (texts (sort_keys ks)) ↔ In t (texts ks)
unfolding sort_keys
In-sort_keys t [] = (λ h. h, λ h. h)
In-sort_keys t (k ∷ ks) = ground (arith, In-insert_key t k (sort_keys ks), In-sort_keys t ks)

In-compact_after :
    (t : String) (k : NamespacedName) (ks : List NamespacedName)
    → In t (key_text k ∷ texts (compact_after k ks)) ↔ In t (key_text k ∷ texts ks)
In-compact_after t k [] = (λ h. h, λ h. h)
In-compact_after t k (x ∷ xs) =
    ground
      (arith, In-compact_after t k xs, In-compact_after t x xs, eq_iff (key_text k) (key_text x))

Bounded-insert_key :
    (t : String) (k : NamespacedName) (ks : List NamespacedName)
    → text_less (key_text k) t ≡ false
    → Bounded t (texts ks)
    → Bounded t (texts (insert_key k ks))
unfolding insert_key
Bounded-insert_key t k [] h b = (h, tt)
Bounded-insert_key t k (x ∷ xs) h (bx, bs) = ground (arith, Bounded-insert_key t k xs h bs)

-- what is not before a text that is not before another one
text_less-below :
    (x t u : String) → text_less x t ≡ false → text_less t u ≡ false → text_less x u ≡ false
text_less-below x t u h i = elim (Bool-cases (text_less x u)) [
  | inr no' ↦ no'
  | inl less ↦ elim (Bool-cases (text_less t x)) [
    | inl before ↦ absurd (ground (arith, text_less-transitive t x u before less))
    | inr not_before ↦ absurd (ground (arith, text_less-total x t h not_before))
  ]
]

Bounded-below :
    (t u : String) (ts : List String) → text_less t u ≡ false → Bounded t ts → Bounded u ts
Bounded-below t u [] h b = tt
Bounded-below t u (x ∷ xs) h (bx, bs) = (text_less-below x t u bx h, Bounded-below t u xs h bs)

text_less-asymmetric : (s t : String) → text_less s t ≡ true → text_less t s ≡ false
text_less-asymmetric s t h = elim (Bool-cases (text_less t s)) [
  | inr no' ↦ no'
  | inl less ↦ absurd (ground (arith, text_less-transitive s t s h less, text_less-irreflexive s))
]

Sorted-insert_key :
    (k : NamespacedName) (ks : List NamespacedName)
    → Sorted (texts ks)
    → Sorted (texts (insert_key k ks))
unfolding insert_key
Sorted-insert_key k [] s = (tt, tt)
Sorted-insert_key k (x ∷ xs) (b, s) = elim (Bool-cases (text_less (key_text x) (key_text k))) [
  | inl less ↦ rw less (
    Bounded-insert_key (key_text x) k xs (text_less-asymmetric _ _ less) b,
    Sorted-insert_key k xs s,
  )
  | inr above ↦ rw above ((above, Bounded-below _ _ (texts xs) above b), (b, s))
]

Sorted-sort_keys : (ks : List NamespacedName) → Sorted (texts (sort_keys ks))
unfolding sort_keys
Sorted-sort_keys [] = tt
Sorted-sort_keys (k ∷ ks) = Sorted-insert_key k (sort_keys ks) (Sorted-sort_keys ks)

Above-All :
    (t u : String) (ts : List String)
    → text_less t u ≡ true
    → All (λ x. text_less u x ≡ true) ts
    → All (λ x. text_less t x ≡ true) ts
Above-All t u [] h a = tt
Above-All t u (x ∷ xs) h (ax, as') = (text_less-transitive t u x h ax, Above-All t u xs h as')

Increasing-compact_after :
    (k : NamespacedName) (ks : List NamespacedName)
    → Bounded (key_text k) (texts ks)
    → Sorted (texts ks)
    → Increasing (key_text k ∷ texts (compact_after k ks))
Increasing-compact_after k [] b s = (tt, tt)
Increasing-compact_after k (x ∷ xs) (bx, bs) (b, s) =
    elim (Bool-cases (str_eq (key_text k) (key_text x))) [
      | inl same ↦ rw same (Increasing-compact_after k xs bs s)
      | inr different ↦
          let below : text_less (key_text k) (key_text x) ≡ true =
            elim (Bool-cases (text_less (key_text k) (key_text x))) [
              | inl less ↦ less
              | inr not_less ↦ absurd (
                  ground (
                    arith,
                    eq_iff (key_text k) (key_text x),
                    text_less-total (key_text k) (key_text x) not_less bx,
                  ))
            ] in
          let (above, rest) = Increasing-compact_after x xs b s in
          rw different ((below, Above-All _ _ _ below above), (above, rest))
    ]

Increasing-compact :
    (ks : List NamespacedName) → Sorted (texts ks) → Increasing (texts (compact ks))
unfolding compact
Increasing-compact [] s = tt
Increasing-compact (k ∷ ks) (b, s) = Increasing-compact_after k ks b s

In-compact : (t : String) (ks : List NamespacedName) → In t (texts (compact ks)) ↔ In t (texts ks)
unfolding compact
In-compact t [] = (λ h. h, λ h. h)
In-compact t (k ∷ ks) = In-compact_after t k ks

-- The requests are for exactly the listed localizations, in the order of their keys, and none is
-- requested twice.
pub make_requests-Increasing :
    (ks : List NamespacedName)
    → Increasing (texts (make_requests ks))
      × ((t : String) → In t (texts (make_requests ks)) ↔ In t (texts ks))
unfolding make_requests
make_requests-Increasing ks = (
  Increasing-compact (sort_keys ks) (Sorted-sort_keys ks),
  λ t.
      let (f, g) = In-compact t (sort_keys ks) in
      let (f', g') = In-sort_keys t ks in (λ h. f' (f h), λ h. g (g' h)),
)
