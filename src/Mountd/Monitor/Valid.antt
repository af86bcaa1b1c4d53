-- ===== src/Mountd/Monitor/Valid.antt =====
-- A udev event keeps the table well formed.
use isde.Common.{◌≡◌, refl, ◌<◌, false, List, Option, none, some, Str, arith, [], length}
use isde.Mountd.Device.{Device, dev_path_len}
use isde.Mountd.Table.{find_device, store_device}
use isde.Mountd.Table.Laws.{store-IsTable, remove-IsTable}
use isde.Mountd.Table.Add.{push_back-IsTable}
use isde.Mountd.Table.Each.{All-store, All-find, All-push_back, All-remove}
use isde.Mountd.Table.Valid.{IsConsistent, IsValid}
use isde.Mountd.World.{Os, World, Signal, emits}
use isde.Mountd.World.Triple.{either}
use isde.Mountd.Luks.{luks_close}
use isde.Mountd.Mount.{do_mount}
use isde.Mountd.Mount.Reads.{luks_close-Reads}
use isde.Mountd.Mount.Outcome.{do_mount-MountDone}
use isde.Mountd.Udev.{UdevDevice}
use isde.Mountd.Monitor.{
  announce, auto_mounted, on_add, close_removed, drop_entry, on_remove, on_change, on_action, named,
  monitor_dispatch, track,
}
use isde.Mountd.Monitor.New.{FitsNode, NewEntry, IsNew, track-IsNew}

-- A table that `add_device` gave.
abbrev pub ValidNew : Option (Device × List Device) → Type 0
ValidNew none = Unit {0}
ValidNew (some (d, es)) = IsValid es

-- An entry that a lookup gave.
abbrev IsFound : Option Device → Type 0
IsFound none = Unit {0}
IsFound (some d) = IsConsistent d

find-IsFound : (p : Str) (ds : List Device) → IsValid ds → IsFound (find_device p ds)
find-IsFound p ds v = looked (find_device p ds) refl
  where
    looked : (o : Option Device) → find_device p ds ≡ o → IsFound o
    looked none h = tt
    looked (some d) h = All-find IsConsistent p ds d v.consistent h

-- The writes to an entry before it goes.
unmounted-IsValid :
    (d : Device) (ds : List Device)
    → IsConsistent d
    → IsValid ds
    → IsValid (store_device (record d { is_mounted = false; mount_point = [] }) ds)
unmounted-IsValid d ds c v = record {
  table = store-IsTable _ ds v.table;
  consistent =
      All-store IsConsistent _ ds (record { mount_point = refl; ours_unlocked = c.ours_unlocked })
        v.consistent;
}

pub NewEntry-IsValid :
    (p : Str) (ds : List Device) (e : Device) (es : List Device)
    → NewEntry p ds e es
    → IsValid ds
    → IsValid es
NewEntry-IsValid p ds e es n v = rw n.pushed (record {
  table = push_back-IsTable e ds v.table (rw n.dev_path n.untracked) n.room;
  consistent = All-push_back IsConsistent e ds consistent v.consistent;
})
  where
    consistent : IsConsistent e
    consistent = record {
      mount_point = rw (n.mount_point, n.is_mounted);
      ours_unlocked = rw n.not_ours;
    }

IsNew-ValidNew :
    (p : Str) (ds : List Device) (t : Option (Device × List Device))
    → IsNew p ds t
    → IsValid ds
    → ValidNew t
IsNew-ValidNew p ds none n v = tt
IsNew-ValidNew p ds (some (e, es)) n v = NewEntry-IsValid p ds e es n v

pub track-ValidNew :
    (dev : UdevDevice) (p : Str) (ds : List Device)
    → length p < dev_path_len
    → IsValid ds
    → ValidNew (track dev p ds)
track-ValidNew dev p ds fits v = IsNew-ValidNew p ds (track dev p ds) (track-IsNew dev p ds fits) v

module _ (os : Os) where
  pub emits-IsValid : (s : Signal) (w : World) → IsValid w.devices → IsValid (emits s w).devices
  unfolding emits
  emits-IsValid s w v = ground arith

  announce-IsValid :
      (t : Option (Device × List Device)) (w : World)
      → ValidNew t
      → IsValid w.devices
      → IsValid (announce os t w).devices
  unfolding announce
  announce-IsValid none w n v = v
  announce-IsValid (some (d, es)) w n v = emits-IsValid _ _ n

  do_mount_after :
      (p : Str) (w : World) → IsValid w.devices → IsValid (do_mount os p 0 [] w).1.devices
  do_mount_after p w v =
      either (λ u. IsValid u.devices) (do_mount os p 0 [] w) (do_mount-MountDone os p 0 [] w v)
        (λ mp u h. h.0.rest.valid) (λ u h. h.rest.valid)

  auto_mounted-IsValid :
      (p : Str) (t : Option (Device × List Device)) (w : World)
      → IsValid w.devices
      → IsValid (auto_mounted os p t w).devices
  unfolding auto_mounted
  auto_mounted-IsValid p none w v = v
  auto_mounted-IsValid p (some (d, es)) w v = ground (arith, do_mount_after p w v)

  on_add-IsValid :
      (dev : UdevDevice) (p : Str) (w : World)
      → length p < dev_path_len
      → IsValid w.devices
      → IsValid (on_add os dev p w).devices
  unfolding on_add
  on_add-IsValid dev p w fits v = ground (
    arith,
    auto_mounted-IsValid p (track dev p w.devices) (announce os (track dev p w.devices) w)
        (announce-IsValid (track dev p w.devices) w (track-ValidNew dev p w.devices fits v) v),
  )

  close_removed-IsValid :
      (d : Device) (w : World) → IsValid w.devices → IsValid (close_removed os d w).devices
  unfolding close_removed
  close_removed-IsValid d w v = ground (
    arith,
    either (λ u. IsValid u.devices) (luks_close os d.dm_name w)
        ((luks_close-Reads os d.dm_name IsValid).run w v) (λ a u h. h) (λ u h. h),
  )

  dropped-IsValid :
      (p : Str) (o : Option Device) (w : World)
      → IsFound o
      → IsValid w.devices
      → IsValid (drop_entry os p o w).devices
  unfolding drop_entry
  dropped-IsValid p none w c v = v
  dropped-IsValid p (some d) w c v =
      let k = emits-IsValid _ _ (unmounted-IsValid d _ c (close_removed-IsValid d w v)) in
      record {
        table = remove-IsTable p _ k.table;
        consistent = All-remove IsConsistent p _ k.consistent;
      }

  on_change-IsValid :
      (dev : UdevDevice) (p : Str) (w : World)
      → length p < dev_path_len
      → IsValid w.devices
      → IsValid (on_change os dev p w).devices
  unfolding on_change
  on_change-IsValid dev p w fits v =
      ground (
        arith,
        announce-IsValid (track dev p w.devices) w (track-ValidNew dev p w.devices fits v) v,
      )

  named-IsValid :
      (dev : UdevDevice) (action devnode : Option Str) (w : World)
      → FitsNode devnode
      → IsValid w.devices
      → IsValid (named os dev action devnode w).devices
  unfolding named on_action on_remove
  named-IsValid dev none devnode w fits v = v
  named-IsValid dev (some a) none w fits v = v
  named-IsValid dev (some a) (some p) w fits v = ground (
    arith,
    on_add-IsValid dev p w fits v,
    dropped-IsValid p (find_device p w.devices) w (find-IsFound p w.devices v) v,
    on_change-IsValid dev p w fits v,
  )

  -- A udev event whose device node fits keeps the table well formed.
  pub monitor_dispatch-IsValid :
      (dev : UdevDevice) (w : World)
      → FitsNode dev.devnode
      → IsValid w.devices
      → IsValid (monitor_dispatch os (some dev) w).devices
  unfolding monitor_dispatch
  monitor_dispatch-IsValid dev w fits v = named-IsValid dev dev.action dev.devnode w fits v

  pub monitor_dispatch-none-IsValid :
      (w : World) → IsValid w.devices → IsValid (monitor_dispatch os none w).devices
  unfolding monitor_dispatch
  monitor_dispatch-none-IsValid w v = v
