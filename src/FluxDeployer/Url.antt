-- ===== src/FluxDeployer/Url.antt =====
-- The repository of a snapshot that Flux is pointed at: a part of reconcile of
-- controllers/fluxdeployer_controller.go.
use Prim.Native.String.{◌++◌}
use ocm_controller.Prelude.{
  ℕ, String, ◌≡◌, refl, false, Option, none, some, lookup, arith, Option-cases, inl, inr,
}
use ocm_controller.Prelude.Outcome.{Result, ok, panic, context, Result-cases}
use ocm_controller.Prelude.Text.{
  before_slash, has_slash, has_slash-append, has_slash-decimal, before_slash-append, decimal,
}
use ocm_controller.Component.Names.{
  Identity, helm_chart_key, hash_identity, construct_repository_name,
}

-- snapshotRepo[0:strings.Index(snapshotRepo, "/")]: an index of -1 is out of range
abbrev pub cut_chart : Option String → Result String → Result String
cut_chart (some v) (ok repo) = elim (before_slash repo) [ none ↦ panic | some short ↦ ok short ]
cut_chart chart repo = repo

unfoldable pub snapshot_repo : (Identity → Result ℕ) → Identity → Result String
snapshot_repo hash identity =
    cut_chart (lookup helm_chart_key identity) (construct_repository_name hash identity)

has_slash-sha : (n : ℕ) → has_slash ("sha-" ++ decimal n) ≡ false
unfolding has_slash
has_slash-sha n = rw (has_slash-append "sha-" (decimal n), has_slash-decimal n) refl

chart_cut :
    (n : ℕ) (v : String)
    → before_slash (("sha-" ++ decimal n) ++ ("/" ++ v)) ≡ some ("sha-" ++ decimal n)
chart_cut n v = before_slash-append ("sha-" ++ decimal n) v (has_slash-sha n)

-- The chart name that ConstructRepositoryName appends is cut off again, and nothing else: the
-- repository is the hash of the identity, with or without a chart, and the slice is never out of
-- range.
pub snapshot_repo-hash_identity :
    (hash : Identity → Result ℕ) (identity : Identity)
    → snapshot_repo hash identity
      ≡ context "failed to create hash for identity" (hash_identity hash identity)
unfolding snapshot_repo construct_repository_name hash_identity
snapshot_repo-hash_identity hash identity = elim (Option-cases (lookup helm_chart_key identity)) [
  | inl plain_repo ↦ ground arith
  | inr (v, chart) ↦ elim (Result-cases (hash identity)) [
    | inl (n, hashed) ↦ ground (arith, chart_cut n v)
    | inr failed ↦ ground arith
  ]
]
