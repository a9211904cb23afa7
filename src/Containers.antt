-- ===== src/Containers.antt =====
-- std::set and std::map with integer keys.
pub mod OrdSet
pub mod OrdMap
use flowmq.Base.{◌==ℤ◌}
use OrdSet.{contains, insert, erase}
use OrdMap.{lookup, assign, remove}

-- A run names this to compute with the containers.
unfoldable pub containers : Unit {0}
unfolding contains insert erase lookup assign remove ◌==ℤ◌
containers = tt
