-- ===== src/Phases.antt =====
-- pkg/phase: phases, the plans that list them, and what runs them.
pub mod Types
pub mod Site
pub mod Client
pub mod Plan
pub mod Rendering
pub mod Helper
pub mod Listing
pub mod Commands
