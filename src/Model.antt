-- ===== src/Model.antt =====
-- internal/model: the records of servers and users, and the functions on them.
pub mod Types
pub mod Profile
pub mod Role
pub mod Version
pub mod Validate
pub mod Expiry
