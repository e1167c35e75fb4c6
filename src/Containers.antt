-- ===== src/Containers.antt =====
-- pkg/container: the containers that commands run in, and the client that runs a GenericContainer.
pub mod Types
pub mod Docker
pub mod Running
