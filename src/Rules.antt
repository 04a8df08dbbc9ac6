-- ===== src/Rules.antt =====
-- internal/helpers/prometheus_helper.go: the recording and alerting rules of an SLO.
pub mod Labels
pub mod Recording
pub mod Table
pub mod Alerts
pub mod Setup
pub mod Build
