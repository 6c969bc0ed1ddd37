-- ===== src/Lib.antt =====
-- The OCM controller brings components of the Open Component Model into a Kubernetes cluster. Its
-- reconcilers watch custom resources: a ComponentVersion follows a component in a repository, finds
-- the latest version that its constraint allows, verifies it, and writes a ComponentDescriptor for it
-- and for each component it refers to; a Resource fetches one resource of such a component into a
-- cache and describes it by a Snapshot; a Localization and a Configuration mutate the data of a
-- source, by the rules of a resource of the component or by a patch, into a Snapshot of their own; a
-- ResourcePipeline does so by WASM modules; a Snapshot guards the cached data with a finalizer; a
-- FluxDeployer points Flux at the repository of a Snapshot.
--
-- How a reconciler is modelled. A reconcile function is an action on a `World`: the object in memory,
-- its conditions and generations, the state of everything outside (cluster, cache, repositories), and
-- the events recorded. It ends by going on, by a return of a result and an error, or by a panic. Code
-- outside the repository is a parameter: the fluxcd condition helpers (`Runtime`, with their
-- documented behaviour in `RuntimeLaws`), the API server, the OCM, semver and hash libraries, the
-- OCI registry (`RegistryLaws`), files and tar archives (`TarLaws`), the YAML and CUE libraries, and
-- the host's memory. A call that reads takes the state outside, and one that writes returns it.
-- Errors keep the constant parts of their texts; the messages of conditions and events are left out.
--
-- Where the parts meet. ComponentVersion takes a record of services, and ComponentVersion/Client
-- fills it with the operations of Ocm, as main.go does. The looper of Mutation is a service of the
-- controllers of Localization and Configuration, and Localization/Client fills it. The snapshot
-- writer works over any `Cache` of Cache/Contract, and `IsCache` says what such a cache promises; the
-- OCI client of Cache/Repository is one. Wasm/Border puts the host's words to the guest's functions.
--
-- Where things stand:
--   * Prelude: shared names, tests, lists, texts (`%d`, slashes in names, strings.Split), the bits of
--     words, results and errors.
--   * Status: pkg/status (MarkNotReady, MarkAsStalled, MarkReady, UpdateStatus) and pkg/event (New)
--     in Status/Mark; worlds and ways to end in Status/World; returns after a marker in
--     Status/Finish; the rules for what holds on every return in Status/Exits, Status/Reported and
--     Status/Guarded, and for the deferred patch after it in Status/Deferred.
--   * Component: pkg/component (ConstructUniqueName, GetComponentDescriptor), HashIdentity and
--     ConstructRepositoryName of pkg/ocm/ocm.go, Reference of api/v1alpha1/componentversion_types.go.
--   * ComponentVersion: controllers/componentversion_controller.go. checkVersion stands in Version;
--     parseReferences, constructComponentDescriptorsForReference and createComponentDescriptor in
--     Expand; Reconcile and reconcile in Controller. Services is what it calls; Client fills the part
--     of it that pkg/ocm implements. Watch has findObjects, as it does for Resource and FluxDeployer.
--   * Ocm: pkg/ocm/ocm.go and credentials.go. Contexts and credentials in Credentials,
--     ListComponentVersions, GetLatestValidComponentVersion and GetComponentVersion in Versions,
--     VerifyComponent in Verify, GetResource in Fetch and Cached.
--   * Cache: pkg/cache/cache.go in Contract and pkg/oci/repository.go: what it uses of a registry in
--     Registry, FetchBlob, PushBlob, the manifest and the tag calls in Repository, the client with
--     its certificates, PushData, FetchDataByIdentity, FetchDataByDigest, IsCached and DeleteData
--     in Client.
--   * Snapshot: controllers/snapshot_controller.go (Delete, Controller), the event filters of
--     controllers (Predicates), api/v1alpha1/snapshot_types.go (Types),
--     pkg/snapshot/snapshot_writer.go (Writer) with buildTar of pkg/snapshot/tar.go (Tar, and
--     Archive for what it makes). Uncached puts the controller over a cache.
--   * Resource: controllers/resource_controller.go, api/v1alpha1/resource_types.go and
--     reference_types.go, pkg/snapshot/generate_snapshot_name.go.
--   * FluxDeployer: controllers/fluxdeployer_controller.go.
--   * Mutation: controllers/mutation_reconcile_looper.go. YAML values in Values, paths into them and
--     convertMap in Subpath, the object that both controllers mutate in Types, the source's data and
--     identity and the values in Sources, the search for an image reference in Access, the
--     substitution rules of a configuration and of a localization in Rules, compileMapping and
--     populateReferences in Mapping, the strategic merge patch in Patch, and ReconcileMutationObject in
--     Looper. Services is what it calls.
--   * Localization: controllers/localization_controller.go: checkReadiness and
--     checkFluxSourceReadiness in Readiness, Reconcile and reconcile in Controller, findObjects and
--     makeRequestsForLocalizations in Watch and Requests, with what they answer in Concerned.
--   * Configuration: controllers/configuration_controller.go, which is the code of the Localization
--     controller again: its operations are aliases in Controller, and what its watch of Git
--     repositories does differently stands in Watch.
--   * Pipeline: controllers/resourcepipeline_controller.go: reconcile and its steps in Controller, the
--     deferred function and Reconcile in Finish, processValueFunctions in Values, fetchWasmBlob and the
--     parts of a module's name in Module.
--   * Wasm: pkg/wasm/errors/errors.go in Errors, the host's reads and writes of the guest's memory and
--     the packing of pointer and size in Memory, a host's answer as the guest reads it in Border.
--   * Examples: concrete instances of all parameters, and the theorems at concrete inputs.
--
-- Fuel. Three loops have no bound in the code. The expansion of references takes one unit for each
-- call of parseReferences and of constructComponentDescriptorsForReference that is open: how deep
-- it goes is up to the repository, and more fuel than the references weigh is enough, where a
-- weight falls along references. The search for an image reference goes from one access
-- specification to the next, and takes one unit for each round: how many there are is up to the
-- library, and one more than the global accesses on the way is enough. populateReferences takes one
-- unit for each call that is open: for every value that it can give at all there is fuel enough,
-- and more changes nothing. Running out is a result of its own, `out_of_fuel`, that no handler of
-- errors catches. `%d` of a 64-bit hash has 20 digits at most.
--
-- Not modelled: the registration of watches and indices with the manager, log output, the errors of
-- deferred Close calls that the code drops, the test whether data are a tar archive, streaming pushes,
-- the signature check of pkg/oci/verify.go, the WASM runtime and its configuration, generated code and
-- test doubles.
pub mod Prelude
pub mod Status
pub mod Component
pub mod ComponentVersion
pub mod Ocm
pub mod Cache
pub mod Snapshot
pub mod Wasm
pub mod FluxDeployer
pub mod Resource
pub mod Pipeline
pub mod Mutation
pub mod Localization
pub mod Configuration
mod Examples
