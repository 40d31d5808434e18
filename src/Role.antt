-- ===== src/Role.antt =====
-- server/gamenode/role: the attributes of a character and their recomputation.
pub mod Attribute
pub mod Character
pub mod Vitals
mod Tests
