-- ===== src/Database.antt =====
-- pylar/database: what the query layer does without a database. The rows of a query are given.
pub mod Paginator
