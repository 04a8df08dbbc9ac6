-- ===== src/Api.antt =====
-- The resources that the operator reads and writes: its own types (api/openslo/v1,
-- api/osko/v1alpha1), and of the Kubernetes and Prometheus types the fields that it uses.
pub mod Meta
pub mod OpenSlo
pub mod Monitoring
pub mod Osko
