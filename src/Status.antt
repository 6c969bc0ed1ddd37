-- ===== src/Status.antt =====
-- pkg/status and pkg/event: the Ready, Reconciling and Stalled conditions of an object, the events
-- that report them, and the update that ends each reconciliation. The condition helpers themselves
-- (github.com/fluxcd/pkg/runtime/conditions and reconcile) are a parameter, `Runtime`, with the
-- documented behaviour that the code relies on in `RuntimeLaws`. Message texts are not modelled.
pub mod Runtime
pub mod World
pub mod Mark
pub mod Effects
pub mod Finish
pub mod Exits
pub mod Guarded
pub mod Reported
pub mod Observed
pub mod Deferred
