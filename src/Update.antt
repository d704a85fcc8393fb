-- ===== src/Update.antt =====
-- app/update: the versions of the program and how they are compared.
pub mod Version
