-- ===== src/Server/Registry.antt =====
-- crates/usbfwd-server/src/registry.rs: the devices that are exported. The mutex makes each
-- operation one step.
pub mod Exclusive
use padwire.Prelude.{Option, none, some, List, [], if◌then◌else◌}
use padwire.Server.Names
use padwire.Server.Names.{Name, insert, remove, contains}

pub record Registry : Type 0 where
  pub busy : List Name

pub record Lease : Type 0 where
  pub busid : Name

abbrev pub new : Registry
new = record { busy = [] }

unfoldable pub acquire : Registry → Name → Option Lease × Registry
acquire registry busid =
    let (fresh, busy) = insert busid registry.busy in
    (if fresh then some (record { busid = busid }) else none, record { busy = busy })

-- The end of a lease's life, however its session ends.
unfoldable pub drop : Lease → Registry → Registry
drop lease registry = record { busy = (remove lease.busid registry.busy).1 }
