-- ===== src/Models.antt =====
-- services/model_router: model profiles and their registry, the providers, the router that tries
-- models one after the other, and what of it is in the database.
pub mod Profile
pub mod Registry
pub mod Mock
pub mod Router
pub mod Persistence
