-- ===== src/Examples.antt =====
-- Runs on concrete resources, and each theorem with hypotheses at an input that meets them.
mod Samples
mod Labels
mod Rules
mod Conditions
mod Servers
mod Slos
mod Rulers
mod Inline
mod Conflicts
mod LegacyRules
mod Phases
mod AlertManagers
mod Watches
mod PrometheusRules
mod Tenants
mod Events
mod Programs
mod Namesakes
