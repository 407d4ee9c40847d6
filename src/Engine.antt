-- ===== src/Engine.antt =====
-- backend/src/adaptive-engine: the adaptive engine, one module of a candidate's run at a time.
pub mod Numbers
pub mod Constants
pub mod Dict
pub mod Types
pub mod Questions
pub mod Probe
pub mod Evaluation
pub mod Estimator
pub mod Stopping
pub mod Run
pub mod Bank
pub mod Selector
