-- ===== src/Redfish.antt =====
-- pkg/remote: the out-of-band client that drives a baseboard management controller by Redfish.
pub mod Types
pub mod Api
pub mod Errors
pub mod Ids
pub mod Client
pub mod Media
pub mod Direct
pub mod Dell
