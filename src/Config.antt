-- ===== src/Config.antt =====
-- pkg/config: the airshipctl configuration, the checks of it, and the commands that change it.
pub mod Types
pub mod Defaults
pub mod Lookup
pub mod Repo
pub mod Edit
pub mod Host
pub mod Persist
pub mod Run
pub mod Options
pub mod Print
