-- ===== src/Mountd/Udev.antt =====
-- mountd/src/platform_linux.c: what the daemon reads of a udev device. libudev's answers are the
-- fields of the record.
use isde.Common.{
  ℕ, ◌==◌, ◌&&◌, ◌||◌, not, ◌++◌, Bool, true, false, [], ◌∷◌, map, Option, none, some, Str, str_eq,
  codes, fit, is_empty, is_some, if◌then◌else◌,
}
use isde.Mountd.Device.{Device, vendor_len, dev_path_len}

pub record UdevDevice : Type 0 where
  pub action : Option Str
  pub devnode : Option Str
  pub devtype : Option Str
  -- `udev_device_get_property_value`
  pub property : Str → Option Str
  -- sysattr "removable" of the parent disk, where there is a parent disk, and of the device itself
  pub has_parent_disk : Bool
  pub parent_removable : Option Str
  pub own_removable : Option Str

-- p && strcmp(p, s) == 0
abbrev pub is_text : Option Str → Str → Bool
is_text none s = false
is_text (some t) s = str_eq t s

-- p && p[0]
abbrev pub is_given : Option Str → Bool
is_given none = false
is_given (some t) = not (is_empty t)

abbrev pub or_empty : Option Str → Str
or_empty none = []
or_empty (some t) = t

-- `is_removable`
unfoldable pub is_removable : UdevDevice → Bool
is_removable dev =
    is_text (dev.property (codes "ID_BUS")) (codes "usb")
    || is_some (dev.property (codes "ID_USB_DRIVER"))
    || (if dev.has_parent_disk
        then is_text dev.parent_removable (codes "1")
        else is_text dev.devtype (codes "disk") && is_text dev.own_removable (codes "1"))

-- `is_ejectable`
unfoldable pub is_ejectable : UdevDevice → Bool
is_ejectable dev =
    is_text (dev.property (codes "ID_BUS")) (codes "usb")
    || is_some (dev.property (codes "ID_USB_DRIVER"))
    || is_some (dev.property (codes "ID_CDROM"))

-- `get_label`
unfoldable pub get_label : UdevDevice → Option Str
get_label dev =
    if is_given (dev.property (codes "ID_FS_LABEL"))
    then dev.property (codes "ID_FS_LABEL")
    else if is_given (dev.property (codes "ID_PART_ENTRY_NAME"))
    then dev.property (codes "ID_PART_ENTRY_NAME")
    else none

-- `get_fs_type`
unfoldable pub get_fs_type : UdevDevice → Option Str
get_fs_type dev = dev.property (codes "ID_FS_TYPE")

abbrev unescape : ℕ → ℕ
unescape c = if c == b'_' then b' ' else c

vendor_and_model : (vendor model : Option Str) → Str
vendor_and_model vendor model =
    if is_given vendor && is_given model
    then or_empty vendor ++ b' ' ∷ or_empty model
    else if is_given vendor
    then or_empty vendor
    else if is_given model
    then or_empty model
    else []

-- `get_vendor_model`
unfoldable pub get_vendor_model : UdevDevice → Str
unfolding vendor_and_model
get_vendor_model dev = map unescape (
    fit vendor_len
      (vendor_and_model (dev.property (codes "ID_VENDOR")) (dev.property (codes "ID_MODEL"))))

-- What follows the last slash: `strrchr(s, '/')`, or the whole string.
basename_from : (best rest : Str) → Str
basename_from best [] = best
basename_from best (c ∷ s) = basename_from (if c == b'/' then s else best) s

unfoldable pub basename : Str → Str
unfolding basename_from
basename s = basename_from s s

with_name : Device → Str → Device
with_name d name = record d {
  is_luks = true;
  dm_name = fit 256 (codes "luks-" ++ name);
  dm_path = fit dev_path_len (codes "/dev/mapper/" ++ fit 256 (codes "luks-" ++ name));
}

-- `setup_luks_fields`
unfoldable pub setup_luks_fields : Device → UdevDevice → (devnode : Str) → Device
unfolding with_name
setup_luks_fields d dev devnode =
    if is_given (dev.property (codes "ID_FS_UUID"))
    then with_name (record d { luks_uuid = fit 64 (or_empty (dev.property (codes "ID_FS_UUID"))) })
        (or_empty (dev.property (codes "ID_FS_UUID")))
    else with_name d (basename devnode)

-- Partitions, and whole disks that carry a filesystem.
unfoldable pub is_accepted : UdevDevice → Bool
unfolding get_fs_type
is_accepted dev =
    is_text dev.devtype (codes "partition")
    || is_text dev.devtype (codes "disk") && is_some (get_fs_type dev)
