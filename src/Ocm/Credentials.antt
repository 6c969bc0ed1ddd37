-- ===== src/Ocm/Credentials.antt =====
-- CreateAuthenticatedOCMContext and its helpers in pkg/ocm/ocm.go, and pkg/ocm/credentials.go.
use Prim.Native.String.{◌++◌}
use ocm_controller.Prelude.{
  ◌≡◌, refl, ap, ◌∙◌, String, Option, none, some, List, [], ◌∷◌, if◌then◌else◌, str_eq, lookup,
}
use ocm_controller.Prelude.Outcome.{Result, ok, err, panic, out_of_fuel, plain, context}
use ocm_controller.Component.Names.{NamespacedName}
use ocm_controller.ComponentVersion.Types.{ComponentVersion, Repository}
use ocm_controller.Ocm.Library.{Library}

infixl 5 ◌>>=◌
abbrev pub ◌>>=◌ : {A B : Type 0} → Result A → (A → Result B) → Result B
ok a >>= f = f a
err e >>= f = err e
panic >>= f = panic
out_of_fuel >>= f = out_of_fuel

-- A step of a `do` block that ended well had a value.
pub bind_ok :
    {A B : Type 0} (r : Result A) (f : A → Result B) {b : B}
    → (r >>= f) ≡ ok b
    → (a : A) × (r ≡ ok a) × (f a ≡ ok b)
bind_ok (ok a) f h = (a, refl, h)
bind_ok (err e) f h = cc
bind_ok panic f h = cc
bind_ok out_of_fuel f h = cc

-- A step of which the value is known, before a rest of which it is known.
pub ok_bind :
    {A B : Type 0} (r : Result A) (f : A → Result B) {a : A} {b : B}
    → r ≡ ok a
    → f a ≡ ok b
    → (r >>= f) ≡ ok b
ok_bind r f h k = ap (λ x. x >>= f) h ∙ k

-- dockerConfigKey
abbrev docker_config_key : String
docker_config_key = ".dockerconfigjson"

abbrev pub in_namespace : String → String → NamespacedName
in_namespace namespace name = record { namespace = namespace; name = name }

abbrev pub found_or : {A : Type 0} → Result A → Option A → Result A
found_or r (some a) = ok a
found_or r none = r

-- props.SetNonEmptyValue, for each key of a secret
abbrev pub non_empty : List (String × String) → List (String × String)
non_empty [] = []
non_empty ((k, v) ∷ m) = let rest = non_empty m in if str_eq v "" then rest else (k, v) ∷ rest

module _ (l : Library) where
  open l use {
    Cluster, Octx, Credentials, get_secret, get_service_account, new_context, repository_for_config,
    parse_url, new_credentials, set_credentials,
  }

  unfoldable pub get_consumer_identity_for_repository : String → Result (List (String × String))
  get_consumer_identity_for_repository repository_url = do
    first ← parse_url repository_url
    url ← (if str_eq first.scheme "" then parse_url ("oci://" ++ repository_url) else ok first)
    ok (("type", "OCIRegistry") ∷ ("hostname", url.host) ∷ [])

  unfoldable pub get_credentials_for_repository : Cluster → String → String → Result Credentials
  get_credentials_for_repository k namespace secret_name = do
    data' ← get_secret k (in_namespace namespace secret_name)
    ok (new_credentials (non_empty data'))

  unfoldable pub configure_credentials : Cluster → Octx → String → String → String → Result Octx
  configure_credentials k octx repository_url secret_ref namespace = do
    consumer ← get_consumer_identity_for_repository repository_url
    creds ← get_credentials_for_repository k namespace secret_ref
    ok (set_credentials octx consumer creds)

  unfoldable pub configure_access_credentials : Cluster → Octx → Repository → String → Result Octx
  configure_access_credentials k octx repository namespace = elim repository.secret_ref [
    | none ↦ ok octx
    | some secret ↦
        context "failed to configure credentials for component"
          (configure_credentials k octx repository.url secret namespace)
  ]

  -- the body of the loop over the pull secrets
  abbrev pub add_pull_secret : Cluster → String → String → Octx → Result Octx
  add_pull_secret k namespace name octx = do
    secret ← context "failed to get image pull secret" (get_secret k (in_namespace namespace name))
    data' ←
        found_or (err (plain "failed to find .dockerconfigjson in secret"))
          (lookup docker_config_key secret)
    context "failed to configure credentials for repository" (repository_for_config octx data')

  abbrev pub add_pull_secrets : Cluster → String → List String → Octx → Result Octx
  add_pull_secrets k namespace [] octx = ok octx
  add_pull_secrets k namespace (name ∷ names) octx = do
    octx' ← add_pull_secret k namespace name octx
    add_pull_secrets k namespace names octx'

  unfoldable pub configure_service_account_access : Cluster → Octx → String → String → Result Octx
  configure_service_account_access k octx account namespace = do
    pull_secrets ←
        context "failed to fetch service account"
          (get_service_account k (in_namespace namespace account))
    add_pull_secrets k namespace pull_secrets octx

  unfoldable pub create_authenticated_ocm_context : Cluster → ComponentVersion → Result Octx
  create_authenticated_ocm_context k obj = do
    octx ←
        (if str_eq obj.spec.service_account_name ""
          then ok new_context
          else context "failed to configure service account access" (
              configure_service_account_access k new_context obj.spec.service_account_name
                obj.key.namespace))
    context "failed to configure credentials for source"
        (configure_access_credentials k octx obj.spec.repository obj.key.namespace)
