-- ===== src/Examples.antt =====
-- Concrete instances of the parameters, and each theorem at a concrete input.
mod Conditions
mod Repository
mod Versions
mod Components
mod Snapshots
mod Deployments
mod Localizations
mod Mutations
mod MutationRuns
mod MutationParts
mod Mappings
mod Looped
mod Registries
mod Writers
mod Archives
mod Deletions
mod Pipelines
mod Modules
mod Watches
mod Codes
