-- ===== src/Ocm/Latest.antt =====
-- GetLatestValidComponentVersion picks a greatest one of the versions that the constraint allows.
use ocm_controller.Prelude.{
  String, ◌≡◌, refl, ◌∙◌, inl, inr, ◌↔◌, Bool, true, false, List, [], ◌∷◌, arith, All, In,
  Bool-cases,
}
use ocm_controller.Prelude.Outcome.{ok, context, context-ok}
use ocm_controller.Ocm.Credentials.{bind_ok}
use ocm_controller.ComponentVersion.Types.{ComponentVersion}
use ocm_controller.Ocm.Library.{Library}
use ocm_controller.Ocm.Versions.{
  Version, insert_version, sort_versions, first_valid, list_component_versions,
  get_latest_valid_component_version, some_versions,
}

-- GreaterThan of the semver library is a strict weak order.
pub record IsOrder {S : Type 0} (greater : S → S → Bool) : Type 0 where
  pub asymmetric : (a b : S) → greater a b ≡ true → greater b a ≡ false
  pub transitive : (a b c : S) → greater a b ≡ false → greater b c ≡ false → greater a c ≡ false

module _ (l : Library) where
  open l use {Cluster, Octx, Constraint, greater_than, new_constraint, validate}

  abbrev Versions : Type 0
  Versions = List (Version l)

  -- nothing in the list is greater than `v`
  abbrev pub Bounded : Version l → Versions → Type 0
  Bounded v = All λ (x : Version l). greater_than x.semver v.semver ≡ false

  abbrev Sorted : Versions → Type 0
  Sorted [] = Unit
  Sorted (v ∷ vs) = Bounded v vs × Sorted vs

  some_versions-ok : (vs ws : Versions) → some_versions l vs ≡ ok ws → ok vs ≡ ok ws
  some_versions-ok [] ws h = cc
  some_versions-ok (v ∷ vs) ws h = h

  In-insert_version :
      (z v : Version l) (vs : Versions) → In z (insert_version l v vs) ↔ In z (v ∷ vs)
  unfolding insert_version
  In-insert_version z v [] = (λ h. h, λ h. h)
  In-insert_version z v (x ∷ xs) = ground (arith, In-insert_version z v xs)

  In-sort_versions : (z : Version l) (vs : Versions) → In z (sort_versions l vs) ↔ In z vs
  unfolding sort_versions
  In-sort_versions z [] = (λ h. h, λ h. h)
  In-sort_versions z (v ∷ vs) =
      ground (arith, In-insert_version z v (sort_versions l vs), In-sort_versions z vs)

  -- A version that was chosen: it is listed, the constraint allows it, and no other one that the
  -- constraint allows is greater.
  pub record IsGreatest (c : Constraint) (vs : Versions) (v : String) : Type 0 where
    pub chosen : Version l
    pub text : chosen.version ≡ v
    pub listed : In chosen vs
    pub allowed : validate c chosen.semver ≡ true
    pub greatest :
        (z : Version l)
        → In z vs
        → validate c z.semver ≡ true
        → greater_than z.semver chosen.semver ≡ false

  module _ (order : IsOrder greater_than) where
    Bounded-insert_version :
        (x v : Version l) (vs : Versions)
        → greater_than v.semver x.semver ≡ false
        → Bounded x vs
        → Bounded x (insert_version l v vs)
    unfolding insert_version
    Bounded-insert_version x v [] h b = (h, tt)
    Bounded-insert_version x v (y ∷ ys) h (by, bs) =
        ground (arith, Bounded-insert_version x v ys h bs)

    Bounded-below :
        (v x : Version l) (xs : Versions)
        → greater_than x.semver v.semver ≡ false
        → Bounded x xs
        → Bounded v xs
    Bounded-below v x [] h b = tt
    Bounded-below v x (y ∷ ys) h (by, bs) = (order.transitive _ _ _ by h, Bounded-below v x ys h bs)

    Sorted-insert_version :
        (v : Version l) (vs : Versions) → Sorted vs → Sorted (insert_version l v vs)
    unfolding insert_version
    Sorted-insert_version v [] s = (tt, tt)
    Sorted-insert_version v (x ∷ xs) (b, s) = elim (Bool-cases (greater_than x.semver v.semver)) [
      | inl g ↦
          rw g
            (Bounded-insert_version x v xs (order.asymmetric _ _ g) b, Sorted-insert_version v xs s)
      | inr g ↦ rw g ((g, Bounded-below v x xs g b), (b, s))
    ]

    Sorted-sort_versions : (vs : Versions) → Sorted (sort_versions l vs)
    unfolding sort_versions
    Sorted-sort_versions [] = tt
    Sorted-sort_versions (v ∷ vs) =
        Sorted-insert_version v (sort_versions l vs) (Sorted-sort_versions vs)

    Bounded-In :
        (v z : Version l) (vs : Versions)
        → Bounded v vs
        → In z vs
        → greater_than z.semver v.semver ≡ false
    Bounded-In v z [] b h = absurd h
    Bounded-In v z (x ∷ xs) (b, bs) (inl e) = rw (← e) b
    Bounded-In v z (x ∷ xs) (b, bs) (inr h) = Bounded-In v z xs bs h

    irreflexive : (v : Version l) → greater_than v.semver v.semver ≡ false
    irreflexive v = ground (arith, order.asymmetric v.semver v.semver)

    first_valid-IsGreatest :
        (c : Constraint) (vs : Versions) (v : String)
        → Sorted vs
        → first_valid l c vs ≡ ok v
        → IsGreatest c vs v
    unfolding first_valid
    first_valid-IsGreatest c [] v s h = cc
    first_valid-IsGreatest c (x ∷ xs) v (b, s) h = elim (Bool-cases (validate c x.semver)) [
      | inl valid ↦ record {
        chosen = x;
        text = ground arith;
        listed = inl refl;
        allowed = valid;
        greatest = λ z h' allowed. elim h' [
          | inl e ↦ rw (← e) (irreflexive x)
          | inr h'' ↦ Bounded-In x z xs b h''
        ];
      }
      | inr invalid ↦
          let below = first_valid-IsGreatest c xs v s (ground arith) in
          record {
            chosen = below.chosen;
            text = below.text;
            listed = inr below.listed;
            allowed = below.allowed;
            greatest = λ z h' allowed. elim h' [
              | inl e ↦ absurd (ground arith)
              | inr h'' ↦ below.greatest z h'' allowed
            ];
          }
    ]

    sorted-IsGreatest :
        (c : Constraint) (vs : Versions) (v : String)
        → IsGreatest c (sort_versions l vs) v
        → IsGreatest c vs v
    sorted-IsGreatest c vs v latest = record {
      chosen = latest.chosen;
      text = latest.text;
      listed = (In-sort_versions latest.chosen vs).0 latest.listed;
      allowed = latest.allowed;
      greatest = λ z h. latest.greatest z ((In-sort_versions z vs).1 h);
    }

    -- The version that is returned is listed in the repository, the constraint of the spec allows
    -- it, and no other listed version that the constraint allows is greater.
    pub get_latest-IsGreatest :
        (k : Cluster) (octx : Octx) (obj : ComponentVersion) (v : String)
        → get_latest_valid_component_version l k octx obj ≡ ok v
        → (vs : Versions) × (c : Constraint) × (list_component_versions l k octx obj ≡ ok vs)
          × (new_constraint obj.spec.semver ≡ ok c)
          × IsGreatest c vs v
    unfolding get_latest_valid_component_version
    get_latest-IsGreatest k octx obj v h =
        let (listed, found, h₁) = bind_ok (context _ (list_component_versions l k octx obj)) _ h in
        let (vs, some_vs, h₂) = bind_ok (some_versions l listed) _ h₁ in
        let (c, parsed, h₃) = bind_ok (context _ (new_constraint obj.spec.semver)) _ h₂ in
        let latest = first_valid-IsGreatest c (sort_versions l vs) v (Sorted-sort_versions vs) h₃ in
        (
          vs,
          c,
          context-ok _ _ found ∙ some_versions-ok listed vs some_vs,
          context-ok _ _ parsed,
          sorted-IsGreatest c vs v latest,
        )

module _ (l : Library) where
  open l use {Cluster, Octx, Constraint, validate, new_constraint}

  allowed-first_valid :
      (c : Constraint) (vs : List (Version l)) (z : Version l)
      → In z vs
      → validate c z.semver ≡ true
      → (v : String) × (first_valid l c vs ≡ ok v)
  unfolding first_valid
  allowed-first_valid c [] z h allowed = absurd h
  allowed-first_valid c (x ∷ xs) z h allowed = elim (Bool-cases (validate c x.semver)) [
    | inl valid ↦ (x.version, rw valid refl)
    | inr invalid ↦ elim h [
      | inl e ↦ absurd (ground arith)
      | inr h' ↦ let (v, found) = allowed-first_valid c xs z h' allowed in (v, rw invalid found)
    ]
  ]

  -- Where a listed version is allowed, a version is returned.
  pub get_latest-found :
      (k : Cluster) (octx : Octx) (obj : ComponentVersion) (vs : List (Version l)) (c : Constraint)
      (z : Version l)
      → list_component_versions l k octx obj ≡ ok vs
      → new_constraint obj.spec.semver ≡ ok c
      → In z vs
      → validate c z.semver ≡ true
      → (v : String) × (get_latest_valid_component_version l k octx obj ≡ ok v)
  unfolding get_latest_valid_component_version
  get_latest-found k octx obj [] c z listed parsed h allowed = absurd h
  get_latest-found k octx obj (x ∷ xs) c z listed parsed h allowed =
      let (v, found) =
        allowed-first_valid c (sort_versions l (x ∷ xs)) z ((In-sort_versions l z (x ∷ xs)).1 h)
          allowed in
      (v, rw (listed, parsed) found)
