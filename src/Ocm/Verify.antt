-- ===== src/Ocm/Verify.antt =====
-- VerifyComponent and getPublicKey of pkg/ocm/ocm.go, and what it takes to be verified.
use ocm_controller.Prelude.{
  String, Bool, true, none, some, List, [], ◌∷◌, if◌then◌else◌, str_eq, lookup,
}
use ocm_controller.Prelude.Outcome.{Result, ok, err, plain, context}
use ocm_controller.ComponentVersion.Types.{ComponentVersion, PublicKey, Signature}
use ocm_controller.Ocm.Library.{Library}
use ocm_controller.Ocm.Credentials.{◌>>=◌, in_namespace, found_or}

module _ (l : Library) where
  open l use {
    Cluster, Octx, Access, Repo, get_secret, repository_for_spec, lookup_component_version,
    decode_base64, new_options, complete, apply_signing, signatures,
  }

  -- DecodePublicValue of api/v1alpha1/componentversion_types.go
  unfoldable pub decode_public_value : PublicKey → Result String
  decode_public_value key =
      if str_eq key.value "" then err (plain "key value not provided") else decode_base64 key.value

  unfoldable pub get_public_key : Cluster → String → String → String → Result String
  get_public_key k namespace name signature = do
    secret ← get_secret k (in_namespace namespace name)
    found_or (err (plain "public key not found")) (lookup signature secret)

  -- the certificate of a signature, and the block under its error
  abbrev pub certificate : Cluster → String → Signature → Result String
  certificate k namespace signature =
      if str_eq signature.public_key.value ""
      then elim signature.public_key.secret_ref [
        | none ↦ err (plain "kubernetes secret reference not provided")
        | some secret ↦
            context "failed to get public key for verification"
              (get_public_key k namespace secret signature.name)
      ]
      else context "failed to get public key for verification"
          (decode_public_value signature.public_key)

  -- the value of the first signature with the name, empty where there is none
  abbrev pub value_of : String → List (String × String) → String
  value_of name [] = ""
  value_of name ((n, value) ∷ rest) =
      let later = value_of name rest in if str_eq n name then value else later

  abbrev pub matches : String → String → Result Bool
  matches value digest =
      if str_eq value ""
      then err (plain "signature not found in the list of provided ocm signatures")
      else if str_eq digest value
      then ok true
      else err (plain "signature did not match key value")

  -- the body of the loop over the signatures
  unfoldable pub verify_signature :
      Cluster → Octx → Repo → Access → String → Signature → Result Bool
  verify_signature k octx repo cv namespace signature = do
    cert ← certificate k namespace signature
    opts ←
        context "failed to complete signature check"
          (complete (new_options repo signature.name cert) octx)
    digest ← context "failed to apply signing while verifying component" (apply_signing cv opts)
    matches (value_of signature.name (signatures cv)) digest

  unfoldable pub verify_signatures :
      Cluster → Octx → Repo → Access → String → List Signature → Result Bool
  verify_signatures k octx repo cv namespace [] = ok true
  verify_signatures k octx repo cv namespace (s ∷ ss) = do
    checked ← verify_signature k octx repo cv namespace s
    verify_signatures k octx repo cv namespace ss

  unfoldable pub verify_component : Cluster → Octx → ComponentVersion → String → Result Bool
  verify_component k octx obj version = do
    repo ←
        context "failed to get repository for spec"
          (repository_for_spec k octx obj.spec.repository.url)
    cv ←
        context "failed to look up component Version"
          (lookup_component_version k repo obj.spec.component version)
    verify_signatures k octx repo cv obj.key.namespace obj.spec.verify
