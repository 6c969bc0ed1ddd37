-- ===== src/Ocm/Verified.antt =====
-- VerifyComponent accepts exactly the component versions all of whose signatures check.
use ocm_controller.Prelude.{
  String, ◌≡◌, refl, ◌≢◌, ◌↔◌, Bool, true, false, List, [], ◌∷◌, arith, eq_iff, All,
}
use ocm_controller.Prelude.Outcome.{ok, context, context-ok}
use ocm_controller.ComponentVersion.Types.{ComponentVersion, Signature}
use ocm_controller.Ocm.Library.{Library}
use ocm_controller.Ocm.Credentials.{bind_ok}
use ocm_controller.Ocm.Verify.{
  certificate, value_of, matches, verify_signature, verify_signatures, verify_component,
}

module _ (l : Library) where
  open l use {
    Cluster, Octx, Repo, Access, Options, repository_for_spec, lookup_component_version,
    new_options, complete, apply_signing, signatures,
  }

  -- The digest that signing.Apply computes with the certificate of the signature is the one that
  -- the descriptor carries under the signature's name.
  pub record Checks (k : Cluster) (octx : Octx) (repo : Repo) (cv : Access) (namespace : String)
      (s : Signature) : Type 0 where
    pub cert : String
    pub opts : Options
    pub digest : String
    pub has_certificate : certificate l k namespace s ≡ ok cert
    pub completed : complete (new_options repo s.name cert) octx ≡ ok opts
    pub applied : apply_signing cv opts ≡ ok digest
    pub same : value_of l s.name (signatures cv) ≡ digest
    pub present : digest ≢ ""

  matches-ok :
      (value digest : String) (b : Bool)
      → matches l value digest ≡ ok b
      → (value ≡ digest) × (digest ≢ "") × (b ≡ true)
  matches-ok value digest b h = ground (arith, eq_iff value "", eq_iff digest value)

  same-matches :
      (value digest : String) → value ≡ digest → digest ≢ "" → matches l value digest ≡ ok true
  same-matches value digest h n = ground (arith, eq_iff value "", eq_iff digest value)

  verify_signature-Checks :
      (k : Cluster) (octx : Octx) (repo : Repo) (cv : Access) (ns : String) (s : Signature)
      (b : Bool)
      → verify_signature l k octx repo cv ns s ≡ ok b
      → Checks k octx repo cv ns s × (b ≡ true)
  unfolding verify_signature
  verify_signature-Checks k octx repo cv ns s b h =
      let (cert, got, h₁) = bind_ok (certificate l k ns s) _ h in
      let (opts, completed, h₂) =
        bind_ok (context _ (complete (new_options repo s.name cert) octx)) _ h₁ in
      let (digest, applied, h₃) = bind_ok (context _ (apply_signing cv opts)) _ h₂ in
      let (same, present, yes') = matches-ok (value_of l s.name (signatures cv)) digest b h₃ in
      (
        record {
          cert = cert;
          opts = opts;
          digest = digest;
          has_certificate = got;
          completed = context-ok _ _ completed;
          applied = context-ok _ _ applied;
          same = same;
          present = present;
        },
        yes',
      )

  Checks-verify_signature :
      (k : Cluster) (octx : Octx) (repo : Repo) (cv : Access) (ns : String) (s : Signature)
      → Checks k octx repo cv ns s
      → verify_signature l k octx repo cv ns s ≡ ok true
  unfolding verify_signature
  Checks-verify_signature k octx repo cv ns s c =
      rw (c.has_certificate, c.completed, c.applied) (same-matches _ _ c.same c.present)

  verify_signatures-All :
      (k : Cluster) (octx : Octx) (repo : Repo) (cv : Access) (ns : String) (ss : List Signature)
      (b : Bool)
      → verify_signatures l k octx repo cv ns ss ≡ ok b
      → All (Checks k octx repo cv ns) ss × (b ≡ true)
  unfolding verify_signatures
  verify_signatures-All k octx repo cv ns [] b h = (tt, ground arith)
  verify_signatures-All k octx repo cv ns (s ∷ ss) b h =
      let (c, first, h₁) = bind_ok (verify_signature l k octx repo cv ns s) _ h in
      let (rest, yes') = verify_signatures-All k octx repo cv ns ss b h₁ in
      (((verify_signature-Checks k octx repo cv ns s c first).0, rest), yes')

  All-verify_signatures :
      (k : Cluster) (octx : Octx) (repo : Repo) (cv : Access) (ns : String) (ss : List Signature)
      → All (Checks k octx repo cv ns) ss
      → verify_signatures l k octx repo cv ns ss ≡ ok true
  unfolding verify_signatures
  All-verify_signatures k octx repo cv ns [] a = refl
  All-verify_signatures k octx repo cv ns (s ∷ ss) (c, cs) =
      rw (Checks-verify_signature k octx repo cv ns s c)
        (All-verify_signatures k octx repo cv ns ss cs)

  -- The component version is in the repository, and each signature of spec.verify checks.
  pub record IsVerified (k : Cluster) (octx : Octx) (obj : ComponentVersion) (v : String)
      : Type 0 where
    pub repo : Repo
    pub cv : Access
    pub has_repo : repository_for_spec k octx obj.spec.repository.url ≡ ok repo
    pub has_version : lookup_component_version k repo obj.spec.component v ≡ ok cv
    pub all_check : All (Checks k octx repo cv obj.key.namespace) obj.spec.verify

  found :
      (k : Cluster) (octx : Octx) (obj : ComponentVersion) (v : String) (b : Bool)
      → verify_component l k octx obj v ≡ ok b
      → IsVerified k octx obj v × (b ≡ true)
  unfolding verify_component
  found k octx obj v b h =
      let (repo, h₁, h₂) =
        bind_ok (context _ (repository_for_spec k octx obj.spec.repository.url)) _ h in
      let (cv, h₃, h₄) =
        bind_ok (context _ (lookup_component_version k repo obj.spec.component v)) _ h₂ in
      let (all, is_true) =
        verify_signatures-All k octx repo cv obj.key.namespace obj.spec.verify b h₄ in
      (
        record {
          repo = repo;
          cv = cv;
          has_repo = context-ok _ _ h₁;
          has_version = context-ok _ _ h₃;
          all_check = all;
        },
        is_true,
      )

  -- VerifyComponent answers true exactly if the component version is in the repository and, for
  -- each signature of spec.verify, the digest computed with its certificate is the non-empty one
  -- that the descriptor carries under its name; and it never answers false without an error.
  pub verify_component-IsVerified :
      (k : Cluster) (octx : Octx) (obj : ComponentVersion) (v : String)
      → ((verify_component l k octx obj v ≡ ok true) ↔ IsVerified k octx obj v)
        × (verify_component l k octx obj v ≢ ok false)
  unfolding verify_component
  verify_component-IsVerified k octx obj v = (
    (
      λ h. (found k octx obj v true h).0,
      λ c.
          rw (c.has_repo, c.has_version)
            (All-verify_signatures k octx c.repo c.cv obj.key.namespace obj.spec.verify
              c.all_check),
    ),
    λ h. absurd (ground (arith, (found k octx obj v false h).1)),
  )
