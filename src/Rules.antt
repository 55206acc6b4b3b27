-- ===== src/Rules.antt =====
-- quisp/rules: what a rule set holds, and when its rules apply.
pub mod Types
pub mod Conditions
mod Tests
