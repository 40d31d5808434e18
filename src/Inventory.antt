-- ===== src/Inventory.antt =====
-- server/gamenode/inventory: item instances, the bag of one player, and the system
-- that moves items between bags and equipment.
pub mod Item
pub mod Bag
pub mod System
mod Tests
