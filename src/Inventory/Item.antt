-- ===== src/Inventory/Item.antt =====
-- item.h and item.cpp: item definitions, item instances and the source of instance ids.
use cami.Common.{ℕ, ◌+◌, ◌%◌, ◌^◌, List}
use cami.Common.Int.{ℤ}

-- `name` is only displayed and is left out. `attr_bonus` has one entry for each attribute.
pub record ItemDef : Type 0 where
  pub def_id : ℕ
  pub max_stack : ℕ
  pub item_type : ℕ
  pub required_level : ℕ
  pub max_durability : ℕ
  pub equip_slots : ℕ
  pub attr_bonus : List ℤ

pub record ItemStack : Type 0 where
  pub def_id : ℕ
  pub count : ℕ
  pub durability : ℕ
  pub guid : ℕ

-- `ItemStack{}`: the count of an empty slot is 1, and its guid is the invalid one.
abbrev pub empty_stack : ItemStack
empty_stack = record { def_id = 0; count = 1; durability = 0; guid = 0 }

-- NewItemGuid: the counter's value, and the counter after `fetch_add(1)` on 64 bits.
abbrev pub new_item_guid : ℕ → ℕ × ℕ
new_item_guid counter = (counter, (counter + 1) % 2 ^ 64)
