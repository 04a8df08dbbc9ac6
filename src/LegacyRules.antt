-- ===== src/LegacyRules.antt =====
-- internal/utils/common_utils.go: the older builders of rules, which nothing calls any more.
pub mod Labels
pub mod Ratio
pub mod Budget
pub mod Laws
