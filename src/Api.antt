-- ===== src/Api.antt =====
-- services/api/app: the control plane.
pub mod Reply
pub mod Access
pub mod Users
pub mod Authorities
pub mod Policies
pub mod Flows
pub mod Auth
