-- ===== src/Mountd/Daemon/Start.antt =====
-- The table that `mountd_init` builds.
use isde.Common.{Bool, List, [], Str, arith}
use isde.Mountd.Table.Valid.{IsValid}
use isde.Mountd.Udev.{UdevDevice}
use isde.Mountd.Refresh.Valid.{Named, refresh-IsValid}
use isde.Mountd.Monitor.Enumerate.{AllNodesFit, enumerate_devices-Built}
use isde.Mountd.Daemon.{start}

-- The daemon starts with a well-formed table.
pub start-IsValid :
    (base : Str) (auto_mount dbus : Bool) (present : List UdevDevice) (active : Str → Bool)
    (mount_table : List (Str × Str))
    → AllNodesFit present
    → Named mount_table
    → IsValid (start base auto_mount dbus present active mount_table).devices
unfolding start
start-IsValid base auto_mount dbus present active mount_table fits named =
    let b = enumerate_devices-Built present [] fits (empty, tt) in
    refresh-IsValid active mount_table _ named b.0.table b.1
  where
    empty : IsValid []
    empty = record { table = record { distinct = tt; bounded = omega arith }; consistent = tt }
