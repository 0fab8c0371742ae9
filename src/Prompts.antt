-- ===== src/Prompts.antt =====
-- services/prompts: the templates and their registry.
pub mod Template
pub mod Registry
