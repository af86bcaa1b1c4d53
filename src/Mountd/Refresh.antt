-- ===== src/Mountd/Refresh.antt =====
-- mountd/src/devices.c: `mountd_refresh_mount_state` on Linux.
pub mod Valid
use isde.Common.{
  ◌&&◌, not, Bool, true, false, List, [], ◌∷◌, Option, none, some, Str, str_eq, fit, is_empty,
  if◌then◌else◌, map, is_some,
}
use isde.Mountd.Device.{Device, mount_point_len}
use isde.Mountd.Table.{find_device, store_device}

-- The first two loops, for one entry; `active` is `mountd_luks_is_active`.
pub cleared : (active : Str → Bool) → Device → Device
cleared active d =
    if d.is_luks && not (is_empty d.dm_name)
    then record d { is_mounted = false; mount_point = []; is_unlocked = active d.dm_name }
    else record d { is_mounted = false; mount_point = [] }

pub mounted_on : Str → Device → Device
mounted_on mp d = record d { is_mounted = true; mount_point = fit mount_point_len mp }

-- The inner loop: the first LUKS volume whose mapped device is mounted.
pub mark_mapped : (dev mp : Str) → List Device → List Device
mark_mapped dev mp [] = []
mark_mapped dev mp (d ∷ ds) =
    if d.is_luks && not (is_empty d.dm_path) && str_eq d.dm_path dev
    then mounted_on mp d ∷ ds
    else d ∷ mark_mapped dev mp ds

-- One line of /proc/mounts: its device and its mount point.
pub mark_line : Str × Str → List Device → List Device
unfolding mounted_on mark_mapped
mark_line (dev, mp) ds = elim (find_device dev ds) [
  | some d ↦ store_device (mounted_on mp d) ds
  | none ↦ mark_mapped dev mp ds
]

pub mark_lines : List (Str × Str) → List Device → List Device
mark_lines [] ds = ds
mark_lines (l ∷ ls) ds = mark_lines ls (mark_line l ds)

-- `mountd_refresh_mount_state`; the table is empty of lines where /proc/mounts cannot be opened.
pub refresh_mount_state :
    (active : Str → Bool) → (mount_table : List (Str × Str)) → List Device → List Device
unfolding cleared mark_line mark_lines
refresh_mount_state active mount_table ds = mark_lines mount_table (map (cleared active) ds)
