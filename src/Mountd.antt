-- ===== src/Mountd.antt =====
-- isde-mountd, the daemon that tracks removable devices and mounts them (mountd/src).
pub mod Device
pub mod Label
pub mod Table
pub mod World
pub mod Luks
pub mod Mount
pub mod Udev
pub mod Refresh
pub mod Monitor
pub mod Dbus
mod Tests
pub mod Daemon
