-- ===== src/Tests.antt =====
-- Concrete inputs for the theorems: a small objective module and a small personality module, with
-- whole numbers in place of doubles.
mod Fixtures
mod Engine
mod Session
mod Window
mod Selector
mod History
mod Replaying
mod Reports
mod Practice
