-- ===== src/Mountd/Daemon.antt =====
-- mountd/src/mountd.c: the daemon's life is a start, and then one event of its main loop after another.
-- Nothing else writes its state.
pub mod Start
pub mod Invariant
use isde.Common.{List, [], ◌∷◌, Option, Str, Bool}
use isde.Mountd.Device.{Device, MountDaemon}
use isde.Mountd.World.{Os, World}
use isde.Mountd.Udev.{UdevDevice}
use isde.Mountd.Monitor.{monitor_dispatch, enumerate_devices}
use isde.Mountd.Dbus.{Message, handle_method}
use isde.Mountd.Refresh.{refresh_mount_state}

-- What `poll` wakes the loop for: a device event or a message on the bus. SIGCHLD only reaps.
pub data Input : Type 0 where
  monitor : Option UdevDevice → Input
  message : Message → Input

-- `mountd_init`: the configured base and switch, the devices that are there, and the mount table.
pub start :
    (base : Str) (auto_mount dbus : Bool) (present : List UdevDevice) (active : Str → Bool)
    (mount_table : List (Str × Str))
    → World
start base auto_mount dbus present active mount_table = record {
  md = record {
    devices = refresh_mount_state active mount_table (enumerate_devices present []);
    mount_base = base;
    auto_mount = auto_mount;
    dbus = dbus;
  };
  log = [];
}

module _ (os : Os) where
  pub step : World → Input → World
  step w (monitor dev) = monitor_dispatch os dev w
  step w (message msg) = (handle_method os msg w).1

  pub run : World → List Input → World
  run w [] = w
  run w (i ∷ is) = run (step w i) is
