-- ===== src/Integrations.antt =====
-- services/integrations: the check whether a repository can be connected, and the GitHub client.
pub mod Errors
pub mod Connection
pub mod Github
