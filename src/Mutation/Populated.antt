-- ===== src/Mutation/Populated.antt =====
-- What populateReferences makes of a value, described without a bound on the depth of references.
use ocm_controller.Prelude.{
  if◌then◌else◌, if_true, if_false, ℕ, zero, suc, ◌+◌, ◌≤◌, ◌≡◌, ◌↔◌, refl, ◌∙◌, ap, String, Bool,
  true, false, List, [], ◌∷◌, arith,
}
use ocm_controller.Prelude.Outcome.{Result, ok}
use mathlib.Core.Path.{subst}
use ocm_controller.Ocm.Credentials.{◌>>=◌, bind_ok, ok_bind}
use ocm_controller.Mutation.Mapping.{
  CueServices, references_path, place_of, with_descriptor, populate_each, populate_references,
}

ok_inj : {A : Type 0} {a b : A} → ok a ≡ ok b → a ≡ b
ok_inj h = cc

module _ {Cluster : Type 0} (s : CueServices Cluster) (k : Cluster) (namespace : String) where
  open s use {Value, Selector, fill_path, lookup_path, exists, list}

  mutual
    -- The value without references is as it was; in one with references, each gets its descriptor,
    -- is populated itself, and is put back at its index, one after the other.
    pub data IsPopulated : Value → Value → Type 0 where
      no_references :
          {v : Value} → exists (lookup_path v (references_path s)) ≡ false → IsPopulated v v
      with_references :
          {v v' : Value} (items : List (Selector × Value))
          → exists (lookup_path v (references_path s)) ≡ true
          → list (lookup_path v (references_path s)) ≡ ok items
          → ArePopulated items v v'
          → IsPopulated v v'

    pub data ArePopulated : List (Selector × Value) → Value → Value → Type 0 where
      none_left : {root : Value} → ArePopulated [] root root
      one_more :
          {root root' : Value} {items : List (Selector × Value)} (index : Selector)
          (val filled populated : Value)
          → with_descriptor s k namespace val ≡ ok filled
          → IsPopulated filled populated
          → ArePopulated items (fill_path root (place_of s index) populated) root'
          → ArePopulated ((index, val) ∷ items) root root'

  -- Some fuel is enough for this result, and more fuel gives the same.
  abbrev pub Settles : Value → Value → Type 0
  Settles v v' =
      (n : ℕ) × ((fuel : ℕ) → n ≤ fuel → populate_references s fuel k namespace v ≡ ok v')

  abbrev EachSettles : List (Selector × Value) → Value → Value → Type 0
  EachSettles items root root' =
      (n : ℕ) × ((fuel : ℕ)
        → n ≤ fuel
        → populate_each s (populate_references s fuel k namespace) k namespace items root
          ≡ ok root')

  each-ArePopulated :
      (n : ℕ)
      → ((v v' : Value) → populate_references s n k namespace v ≡ ok v' → IsPopulated v v')
      → (items : List (Selector × Value)) (root root' : Value)
      → populate_each s (populate_references s n k namespace) k namespace items root ≡ ok root'
      → ArePopulated items root root'
  unfolding populate_each
  each-ArePopulated n below [] root root' h = subst (ArePopulated [] root) (ok_inj h) none_left
  each-ArePopulated n below ((index, val) ∷ items) root root' h =
      let (filled, f, h₁) = bind_ok (with_descriptor s k namespace val) _ h in
      let (populated, p, h₂) = bind_ok (populate_references s n k namespace filled) _ h₁ in
      one_more index val filled populated f (below filled populated p)
        (each-ArePopulated n below items _ root' h₂)

  -- one call, by what the test and the list of references give
  call-IsPopulated :
      (n : ℕ)
      → ((v v' : Value) → populate_references s n k namespace v ≡ ok v' → IsPopulated v v')
      → (v v' : Value) (b : Bool) (r : Result (List (Selector × Value)))
      → exists (lookup_path v (references_path s)) ≡ b
      → list (lookup_path v (references_path s)) ≡ r
      → (if b
          then (r >>= λ items.
              populate_each s (populate_references s n k namespace) k namespace items v)
          else ok v)
        ≡ ok v'
      → IsPopulated v v'
  call-IsPopulated n below v v' false r e l h = subst (IsPopulated v) (ok_inj h) (no_references e)
  call-IsPopulated n below v v' true r e l h =
      let (items, g, h₁) = bind_ok r _ h in
      with_references items e (l ∙ g) (each-ArePopulated n below items v v' h₁)

  populate-IsPopulated :
      (n : ℕ) (v v' : Value) → populate_references s n k namespace v ≡ ok v' → IsPopulated v v'
  unfolding populate_references
  populate-IsPopulated zero v v' h = cc
  populate-IsPopulated (suc n) v v' h =
      call-IsPopulated n (populate-IsPopulated n) v v' _ _ refl refl h

  call_none :
      (v : Value) (fuel : ℕ)
      → exists (lookup_path v (references_path s)) ≡ false
      → 1 ≤ fuel
      → populate_references s fuel k namespace v ≡ ok v
  unfolding populate_references
  call_none v zero e h = absurd (omega arith)
  call_none v (suc n) e h = if_false (exists (lookup_path v (references_path s))) _ (ok v) e

  call_some :
      (v : Value) (items : List (Selector × Value)) (fuel : ℕ)
      → exists (lookup_path v (references_path s)) ≡ true
      → list (lookup_path v (references_path s)) ≡ ok items
      → 1 ≤ fuel
      → (n : ℕ) × (fuel ≡ suc n)
        × (populate_references s fuel k namespace v
            ≡ populate_each s (populate_references s n k namespace) k namespace items v)
  unfolding populate_references
  call_some v items zero e l h = absurd (omega arith)
  call_some v items (suc n) e l h = (
    n,
    refl,
    if_true (exists (lookup_path v (references_path s))) _ (ok v) e
        ∙ ap
            (λ r.
              r >>= λ is. populate_each s (populate_references s n k namespace) k namespace is v)
            l,
  )

  mutual
    unfolding populate_each

    populated-Settles : (v v' : Value) → IsPopulated v v' → Settles v v'
    populated-Settles v _ (no_references e) = (1, λ fuel. call_none v fuel e)
    populated-Settles v v' (with_references items e l each) =
        let (n, h) = each-Settles items v v' each in
        (
          suc n,
          λ fuel le.
              let (f, q, call) = call_some v items fuel e l (omega arith) in
              call ∙ h f (omega arith),
        )

    each-Settles :
        (items : List (Selector × Value)) (root root' : Value)
        → ArePopulated items root root'
        → EachSettles items root root'
    each-Settles _ root _ none_left = (0, λ fuel le. refl)
    each-Settles _ root root' (one_more index val filled populated f p rest) =
        let (a, g) = populated-Settles filled populated p in
        let (b, h) = each-Settles _ _ root' rest in
        (
          a + b,
          λ fuel le. ok_bind (with_descriptor s k namespace val) _ f (
              ok_bind (populate_references s fuel k namespace filled) _ (g fuel (omega arith))
                (h fuel (omega arith))),
        )

  -- With enough fuel, and with any more of it, populateReferences gives `v'` for `v` exactly if `v'`
  -- is `v` with the descriptor of each reference filled in, those of its references again, in the
  -- order of the lists, and with all these descriptors there.
  pub populate_references-IsPopulated : (v v' : Value) → Settles v v' ↔ IsPopulated v v'
  populate_references-IsPopulated v v' =
      (λ h. populate-IsPopulated h.0 v v' (h.1 h.0 (omega arith)), populated-Settles v v')
