-- ===== src/Workflow/Validator.antt =====
-- internal/workflow/validator.go: the depth-first validation of a workflow and of all that it refers to.
pub mod Report
pub mod Device
pub mod Walk
