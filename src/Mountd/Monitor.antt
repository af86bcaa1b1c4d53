-- ===== src/Mountd/Monitor.antt =====
-- mountd/src/platform_linux.c: `linux_enumerate_devices` and `linux_monitor_dispatch`.
pub mod Safety
pub mod New
pub mod Valid
pub mod Enumerate
use isde.Common.{
  ℕ, ◌&&◌, not, Bool, true, false, List, [], ◌∷◌, Option, none, some, Str, str_eq, codes,
  if◌then◌else◌,
}
use isde.Mountd.Device.{Device}
use isde.Mountd.Table.{find_device, store_device, set_back, add_device, remove_device}
use isde.Mountd.World.{Os, World, set_devices, emits, device_added, device_removed}
use isde.Mountd.Luks.{luks_close}
use isde.Mountd.Mount.{do_mount}
use isde.Mountd.Udev.{
  UdevDevice, is_removable, is_ejectable, get_label, get_fs_type, get_vendor_model,
  setup_luks_fields, is_accepted, is_text, or_empty,
}

-- `mountd_add_device` with what udev says, then `setup_luks_fields` on the new entry: the entry, and
-- the table that holds it.
pub track : UdevDevice → (devnode : Str) → List Device → Option (Device × List Device)
track dev devnode ds =
    elim (add_device devnode (or_empty (get_label dev)) (get_vendor_model dev)
      (or_empty (get_fs_type dev)) (is_ejectable dev) ds) [
        | none ↦ none
        | some (d, es) ↦
            if is_text (get_fs_type dev) (codes "crypto_LUKS")
            then some
                (setup_luks_fields d dev devnode, set_back (setup_luks_fields d dev devnode) es)
            else some (d, es)
      ]

module _ (os : Os) where
  -- The new entry is announced.
  announce : Option (Device × List Device) → World → World
  announce none w = w
  announce (some (d, es)) w = emits (device_added d.dev_path d.label d.fs_type) (set_devices es w)

  -- action "add"; an automatic mount is asked for uid 0 and its outcome is not read.
  auto_mounted : (devnode : Str) → Option (Device × List Device) → World → World
  auto_mounted devnode none w = w
  auto_mounted devnode (some (d, es)) w =
      if w.auto_mount && not d.is_luks then (do_mount os devnode 0 [] w).1 else w

  on_add : UdevDevice → (devnode : Str) → World → World
  on_add dev devnode w =
      if is_removable dev
      then auto_mounted devnode (track dev devnode w.devices)
          (announce (track dev devnode w.devices) w)
      else w

  -- action "remove"
  close_removed : Device → World → World
  close_removed d w =
      if d.is_luks && d.is_unlocked && d.luks_opened_by_us then (luks_close os d.dm_name w).1 else w

  drop_entry : (devnode : Str) → Option Device → World → World
  drop_entry devnode none w = w
  drop_entry devnode (some d) w =
      let c = close_removed d w in
      let u =
        set_devices (store_device (record d { is_mounted = false; mount_point = [] }) c.devices)
          c in
      let v = emits (device_removed devnode) u in set_devices (remove_device devnode v.devices) v

  on_remove : (devnode : Str) → World → World
  on_remove devnode w = drop_entry devnode (find_device devnode w.devices) w

  -- action "change": a medium that was not there before
  on_change : UdevDevice → (devnode : Str) → World → World
  on_change dev devnode w =
      if is_removable dev
      then elim (find_device devnode w.devices) [
        | some d ↦ w
        | none ↦ announce (track dev devnode w.devices) w
      ]
      else w

  on_action : UdevDevice → (action devnode : Str) → World → World
  on_action dev action devnode w =
      if str_eq action (codes "add")
      then on_add dev devnode w
      else if str_eq action (codes "remove")
      then on_remove devnode w
      else if str_eq action (codes "change")
      then on_change dev devnode w
      else w

  named : UdevDevice → Option Str → Option Str → World → World
  named dev (some action) (some devnode) w =
      if is_accepted dev then on_action dev action devnode w else w
  named dev none devnode w = w
  named dev (some action) none w = w

  -- `linux_monitor_dispatch`; `udev_monitor_receive_device` may give no device.
  pub monitor_dispatch : Option UdevDevice → World → World
  unfolding named
  monitor_dispatch none w = w
  monitor_dispatch (some dev) w = named dev dev.action dev.devnode w

pub enumerated : UdevDevice → Option Str → List Device → List Device
enumerated dev none ds = ds
enumerated dev (some devnode) ds = elim (track dev devnode ds) [ none ↦ ds | some (d, es) ↦ es ]

-- `linux_enumerate_devices`, over the devices that udev lists
pub enumerate_devices : List UdevDevice → List Device → List Device
unfolding enumerated
enumerate_devices [] ds = ds
enumerate_devices (dev ∷ devs) ds =
    enumerate_devices devs
      (if is_accepted dev && is_removable dev then enumerated dev dev.devnode ds else ds)
