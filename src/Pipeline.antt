-- ===== src/Pipeline.antt =====
-- controllers/resourcepipeline_controller.go over api/v1alpha1/resourcepipeline_types.go: the
-- functions in the values of a step (Values), its module (Module), the pipeline, and the deferred
-- function that marks it.
pub mod Values
pub mod Plain
pub mod Types
pub mod Module
pub mod Fetched
pub mod Controller
pub mod Finish
pub mod Unready
