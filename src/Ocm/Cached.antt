-- ===== src/Ocm/Cached.antt =====
-- GetResource of pkg/ocm/ocm.go, which goes through the cache.
use ocm_controller.Prelude.{
  String, Bool, ◌≡◌, refl, ◌∙◌, sym, ◌⊎◌, inl, inr, true, false, Option, if◌then◌else◌, arith,
}
use ocm_controller.Prelude.Outcome.{
  Result, ok, err, panic, out_of_fuel, context, context-ok, Op, lift, in_context, ◌>>=◌, continue,
}
use mathlib.Core.Path.{subst}
use ocm_controller.ComponentVersion.Types.{ComponentVersion}
use ocm_controller.Ocm.Library.{Library}
use ocm_controller.Ocm.Fetch.{ResourceReference, version_or_latest, cache_name, fetch_uncached}

module _ (l : Library) where
  open l use {
    Cluster, Octx, Data, is_cached, fetch_data_by_identity, push_data, fetch_data_by_digest,
  }

  -- The content that the cache gives back, and its digest.
  unfoldable pub cache_and_fetch : String → String → Data × String → Op Cluster (Data × String)
  cache_and_fetch name version (content, media_type) = do
    digest ← in_context "failed to cache blob" (push_data content media_type name version)
    cached ← λ k. (context "failed to fetch resource" (fetch_data_by_digest k name digest), k)
    lift (ok (cached, digest))

  -- the rest of GetResource, once the cache was asked
  unfoldable pub after_check :
      Option Octx
      → ComponentVersion
      → ResourceReference
      → String
      → Bool
      → Op Cluster (Data × String)
  after_check octx cv resource name cached =
      if cached then (λ k. (fetch_data_by_identity k name (version_or_latest resource), k)) else (do
        fetched ← λ k. (fetch_uncached l k octx cv resource, k)
        cache_and_fetch name (version_or_latest resource) fetched)

  unfoldable pub get_cached_or_fetch :
      Option Octx → ComponentVersion → ResourceReference → String → Op Cluster (Data × String)
  get_cached_or_fetch octx cv resource name = do
    cached ←
        λ k. (context "failed to check cache" (is_cached k name (version_or_latest resource)), k)
    after_check octx cv resource name cached

  unfoldable pub get_resource :
      Option Octx → ComponentVersion → ResourceReference → Op Cluster (Data × String)
  get_resource octx cv resource = do
    name ← λ k. (cache_name l k cv resource, k)
    get_cached_or_fetch octx cv resource name

  -- What was written: the decompressed content of the resource, under the name and version that the
  -- cache was asked for and did not have.
  pub record IsCaching (k k' : Cluster) (octx : Option Octx) (cv : ComponentVersion)
      (resource : ResourceReference) : Type 0 where
    pub name : String
    pub fetched : Data × String
    pub named : cache_name l k cv resource ≡ ok name
    pub missing : is_cached k name (version_or_latest resource) ≡ ok false
    pub content : fetch_uncached l k octx cv resource ≡ ok fetched
    pub pushed : (push_data fetched.0 fetched.1 name (version_or_latest resource) k).1 ≡ k'

  cluster-cache_and_fetch :
      (name version : String) (fetched : Data × String) (k : Cluster)
      → (push_data fetched.0 fetched.1 name version k).1
        ≡ (cache_and_fetch name version fetched k).1
  unfolding cache_and_fetch
  cluster-cache_and_fetch name version (content, media_type) k = ground arith

  -- the state in which a step ends that had a value, or the state before it
  step_or_stop :
      {A B : Type 0} (x : Result A) (f : A → Op Cluster B) (k : Cluster)
      → ((a : A) × (x ≡ ok a) × ((continue x f k).1 ≡ (f a k).1)) ⊎ ((continue x f k).1 ≡ k)
  step_or_stop (ok a) f k = inl (a, refl, refl)
  step_or_stop (err e) f k = inr refl
  step_or_stop panic f k = inr refl
  step_or_stop out_of_fuel f k = inr refl

  after_check-IsCaching :
      (octx : Option Octx) (cv : ComponentVersion) (resource : ResourceReference) (k : Cluster)
      (name : String) (cached : Bool)
      → cache_name l k cv resource ≡ ok name
      → is_cached k name (version_or_latest resource) ≡ ok cached
      → ((after_check octx cv resource name cached k).1 ≡ k)
        ⊎ IsCaching k (after_check octx cv resource name cached k).1 octx cv resource
  unfolding after_check
  after_check-IsCaching octx cv resource k name true named h = inl refl
  after_check-IsCaching octx cv resource k name false named h =
      elim (step_or_stop (fetch_uncached l k octx cv resource)
        (cache_and_fetch name (version_or_latest resource)) k) [
          | inr stopped ↦ inl stopped
          | inl (fetched, content, pushed) ↦ inr (record {
            name = name;
            fetched = fetched;
            named = named;
            missing = h;
            content = content;
            pushed =
                cluster-cache_and_fetch name (version_or_latest resource) fetched k ∙ sym pushed;
          })
        ]

  -- GetResource leaves the cluster as it was, or it has written once: the content of a resource that
  -- was not cached.
  pub get_resource-IsCaching :
      (octx : Option Octx) (cv : ComponentVersion) (resource : ResourceReference) (k : Cluster)
      → ((get_resource octx cv resource k).1 ≡ k)
        ⊎ IsCaching k (get_resource octx cv resource k).1 octx cv resource
  unfolding get_resource get_cached_or_fetch
  get_resource-IsCaching octx cv resource k =
      elim (step_or_stop (cache_name l k cv resource) (get_cached_or_fetch octx cv resource) k) [
        | inr stopped ↦ inl stopped
        | inl (name, named, rest) ↦
            elim (step_or_stop
              (context "failed to check cache" (is_cached k name (version_or_latest resource)))
              (after_check octx cv resource name) k) [
                | inr stopped ↦ inl (rest ∙ stopped)
                | inl (cached, h, rest') ↦
                    subst (λ (k' : Cluster). (k' ≡ k) ⊎ IsCaching k k' octx cv resource)
                      (sym (rest ∙ rest'))
                      (after_check-IsCaching octx cv resource k name cached named
                        (context-ok _ _ h))
              ]
      ]
