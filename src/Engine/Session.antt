-- ===== src/Engine/Session.antt =====
-- The rows of services/core/src/forgeai_core/models that the engine reads and writes, the session
-- as the tables that it holds, and the outside world that a run meets. A row object that Python
-- shares is its id here: every read and write goes to the table. Datetimes are microseconds, JSON
-- values are their text, and ids are numbers given in order.
pub mod Rows
pub mod Actions
