-- ===== src/Cache/Opened.antt =====
-- The client of the cache needs its certificates once, and finds a repository again.
use Prim.Native.String.{◌++◌}
use mathlib.Core.Path.{subst}
use ocm_controller.Prelude.{String, true, false, ◌||◌, ◌≡◌, sym, ap, ◌∙◌, arith, str_eq}
use ocm_controller.Prelude.Outcome.{ok, context, context-ok, step-ok}
use ocm_controller.Cache.Registry.{Registry, Transport}
use ocm_controller.Cache.Repository.{Repository, contains_text, parse_reference}
use ocm_controller.Cache.Client.{
  Client, Here, transport_of, has_certificates, read_certificates, setup_certificates,
  with_transport, new_repository,
}

module _ (g : Registry) where
  -- The client needs no more certificates, and this is the repository of a name.
  pub record IsOpen (c : Client) (name : String) (repo : Repository) : Type 0 where
    pub ready : (c.insecure_skip_verify || has_certificates c) ≡ true
    pub transported : repo.transport ≡ transport_of c
    pub named : g.new_repository_name (c.oci_repository_addr ++ ("/" ++ name)) ≡ ok repo.name

  read_certificates-ready :
      (h : Here g)
      → (read_certificates g h).0 ≡ ok tt
      → has_certificates (read_certificates g h).1.client ≡ true
  unfolding read_certificates
  read_certificates-ready h e = ground arith

  setup_certificates-ready :
      (h : Here g)
      → (setup_certificates g h).0 ≡ ok tt
      → has_certificates (setup_certificates g h).1.client ≡ true
  unfolding setup_certificates
  setup_certificates-ready h e = ground (arith, read_certificates-ready h)

  with_transport-ready :
      (h : Here g) (t : Transport)
      → (with_transport g h).0 ≡ ok t
      → ((with_transport g h).1.client.insecure_skip_verify
            || has_certificates (with_transport g h).1.client
          ≡ true)
        × (t ≡ transport_of (with_transport g h).1.client)
  unfolding with_transport
  with_transport-ready h t e = ground (arith, setup_certificates-ready h)

  pub new_repository-IsOpen :
      (name : String) (h : Here g) (repo : Repository)
      → (new_repository g name h).0 ≡ ok repo
      → IsOpen (new_repository g name h).1.client name repo
  unfolding new_repository
  new_repository-IsOpen name h repo e =
      let (t, opened, same) =
        step-ok
          (context "failed to make options"
            (context "failed to apply option" (with_transport g h).0))
          _ _ e in
      let h₁ = (with_transport g h).1 in
      let (ready, transported) =
        with_transport-ready h t (context-ok _ _ (context-ok _ _ opened)) in
      let (n, parsed, same₁) =
        step-ok
          (context "failed to parse Repository name"
            (g.new_repository_name (h₁.client.oci_repository_addr ++ ("/" ++ name))))
          _ _ (ap (λ x. x.0) (sym same) ∙ e) in
      let made : record { name = n; transport = t } ≡ repo =
        ground (arith, ap (λ x. x.0) (sym (same ∙ same₁)) ∙ e) in
      subst (λ (c : Client). IsOpen c name repo) (ap (λ x. x.1.client) (sym (same ∙ same₁)))
        (subst (IsOpen h₁.client name) made
          (record { ready = ready; transported = transported; named = context-ok _ _ parsed }))

  -- The next call finds the repository again, and changes nothing.
  pub new_repository_again :
      (name : String) (h : Here g) (repo : Repository)
      → IsOpen h.client name repo
      → new_repository g name h ≡ (ok repo, h)
  unfolding new_repository with_transport
  new_repository_again name h repo o = ground (arith, o.ready, o.transported, o.named)

  abbrev pub IsTag : String → Type 0
  IsTag tag = contains_text "sha256:" tag ≡ false

  pub parse_reference-tag :
      (tag : String) (repo : Repository) (ref : g.Reference)
      → IsTag tag
      → parse_reference g tag repo ≡ ok ref
      → (g.parse_name (repo.name ++ (":" ++ tag)) ≡ ok ref) × (str_eq tag "" ≡ false)
  unfolding parse_reference
  parse_reference-tag tag repo ref is_tag h = ground arith
