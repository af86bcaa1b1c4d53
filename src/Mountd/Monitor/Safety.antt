-- ===== src/Mountd/Monitor/Safety.antt =====
-- A udev event never leads to an unsafe mount.
use isde.Common.{List, Option, none, some, Str, arith, []}
use isde.Mountd.Device.{Device}
use isde.Mountd.Table.{find_device}
use isde.Mountd.World.{Os, World, Signal, emits, set_devices}
use isde.Mountd.World.Triple.{either}
use isde.Mountd.Luks.{luks_close}
use isde.Mountd.Mount.{do_mount}
use isde.Mountd.Mount.Safety.{IsSafe, do_mount-IsSafe, luks_close-IsSafe}
use isde.Mountd.Udev.{UdevDevice}
use isde.Mountd.Monitor.{
  announce, auto_mounted, on_add, close_removed, drop_entry, on_remove, on_change, on_action, named,
  monitor_dispatch, track,
}

module _ (os : Os) (base : Str) where
  pub emits-IsSafe : (s : Signal) (w : World) → IsSafe os base w → IsSafe os base (emits s w)
  unfolding emits
  emits-IsSafe s w v = ground arith

  pub set_devices-IsSafe :
      (ds : List Device) (w : World) → IsSafe os base w → IsSafe os base (set_devices ds w)
  set_devices-IsSafe ds w v = record { mount_base = v.mount_base; safe_log = v.safe_log }

  announce-IsSafe :
      (t : Option (Device × List Device)) (w : World)
      → IsSafe os base w
      → IsSafe os base (announce os t w)
  unfolding announce
  announce-IsSafe none w v = v
  announce-IsSafe (some (d, es)) w v = emits-IsSafe _ _ (set_devices-IsSafe es w v)

  do_mount_after :
      (p : Str) (w : World) → IsSafe os base w → IsSafe os base (do_mount os p 0 [] w).1
  do_mount_after p w v =
      either (IsSafe os base) (do_mount os p 0 [] w) ((do_mount-IsSafe os base p 0 []).run w v)
        (λ a u h. h) (λ u h. h)

  auto_mounted-IsSafe :
      (p : Str) (t : Option (Device × List Device)) (w : World)
      → IsSafe os base w
      → IsSafe os base (auto_mounted os p t w)
  unfolding auto_mounted
  auto_mounted-IsSafe p none w v = v
  auto_mounted-IsSafe p (some (d, es)) w v = ground (arith, do_mount_after p w v)

  on_add-IsSafe :
      (dev : UdevDevice) (p : Str) (w : World)
      → IsSafe os base w
      → IsSafe os base (on_add os dev p w)
  unfolding on_add
  on_add-IsSafe dev p w v = ground (
    arith,
    auto_mounted-IsSafe p (track dev p w.devices) (announce os (track dev p w.devices) w)
        (announce-IsSafe (track dev p w.devices) w v),
  )

  close_removed-IsSafe :
      (d : Device) (w : World) → IsSafe os base w → IsSafe os base (close_removed os d w)
  unfolding close_removed
  close_removed-IsSafe d w v = ground (
    arith,
    either (IsSafe os base) (luks_close os d.dm_name w)
        ((luks_close-IsSafe os base d.dm_name).run w v) (λ a u h. h) (λ u h. h),
  )

  on_remove-IsSafe : (p : Str) (w : World) → IsSafe os base w → IsSafe os base (on_remove os p w)
  unfolding on_remove drop_entry
  on_remove-IsSafe p w v = dropped (find_device p w.devices)
    where
      dropped : (o : Option Device) → IsSafe os base (drop_entry os p o w)
      dropped none = v
      dropped (some d) =
          set_devices-IsSafe _ _
            (emits-IsSafe _ _ (set_devices-IsSafe _ _ (close_removed-IsSafe d w v)))

  on_change-IsSafe :
      (dev : UdevDevice) (p : Str) (w : World)
      → IsSafe os base w
      → IsSafe os base (on_change os dev p w)
  unfolding on_change
  on_change-IsSafe dev p w v = ground (arith, announce-IsSafe (track dev p w.devices) w v)

  named-IsSafe :
      (dev : UdevDevice) (action devnode : Option Str) (w : World)
      → IsSafe os base w
      → IsSafe os base (named os dev action devnode w)
  unfolding named on_action
  named-IsSafe dev none devnode w v = v
  named-IsSafe dev (some a) none w v = v
  named-IsSafe dev (some a) (some p) w v =
      ground (arith, on_add-IsSafe dev p w v, on_remove-IsSafe p w v, on_change-IsSafe dev p w v)

  pub monitor_dispatch-IsSafe :
      (dev : Option UdevDevice) (w : World)
      → IsSafe os base w
      → IsSafe os base (monitor_dispatch os dev w)
  unfolding monitor_dispatch
  monitor_dispatch-IsSafe none w v = v
  monitor_dispatch-IsSafe (some dev) w v = named-IsSafe dev dev.action dev.devnode w v
