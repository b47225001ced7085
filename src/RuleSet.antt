-- ===== src/RuleSet.antt =====
-- policy_authoring/rule_set_checker.py: the analysis of a whole rule set.
pub mod Interval
pub mod Labels
pub mod Dim
pub mod Box
pub mod Region
pub mod Analyze
mod Tests
