-- ===== src/Cache/Contract.antt =====
-- The interface of pkg/cache/cache.go, and what its users rely on.
use ocm_controller.Prelude.{String, Bool, true, false, ◌≡◌}
use ocm_controller.Prelude.Outcome.{Op, ok}

pub record Cache : Type 1 where
  pub State : Type 0
  -- the content of a reader
  pub Data : Type 0
  pub is_cached : String → String → Op State Bool
  -- content, media type, name and tag; the digest is the result
  pub push_data : Data → String → String → String → Op State String
  pub fetch_data_by_identity : String → String → Op State (Data × String)
  pub fetch_data_by_digest : String → String → Op State Data
  pub delete_data : String → String → Op State (Unit {0})

-- A cache is a map from names and tags to contents and their digests, as far as one name and tag is
-- concerned. `IsTag` tells the tags from the digests.
pub record IsCache (c : Cache) (IsTag : String → Type 0) : Type 0 where
  pub identity-push :
      (d : c.Data) (media_type name tag digest : String) (s s' : c.State)
      → IsTag tag
      → c.push_data d media_type name tag s ≡ (ok digest, s')
      → (c.fetch_data_by_identity name tag s').0 ≡ ok (d, digest)
  pub digest-push :
      (d : c.Data) (media_type name tag digest : String) (s s' : c.State)
      → IsTag tag
      → c.push_data d media_type name tag s ≡ (ok digest, s')
      → (c.fetch_data_by_digest name digest s').0 ≡ ok d
  pub is_cached-push :
      (d : c.Data) (media_type name tag digest : String) (s s' : c.State)
      → IsTag tag
      → c.push_data d media_type name tag s ≡ (ok digest, s')
      → (c.is_cached name tag s').0 ≡ ok true
  pub is_cached-delete :
      (name tag : String) (s s' : c.State)
      → c.delete_data name tag s ≡ (ok tt, s')
      → (c.is_cached name tag s').0 ≡ ok false
