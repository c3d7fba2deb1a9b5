-- ===== src/Domain.antt =====
-- The value types of src/cryptohawk/domain: observations, the rules of a policy, findings.
pub mod Models
pub mod Rules
pub mod Findings
