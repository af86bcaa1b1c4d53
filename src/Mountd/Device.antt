-- ===== src/Mountd/Device.antt =====
-- mountd/src/mountd.h: the limits, the record of a device and the state of the daemon.
use isde.Common.{ℕ, Bool, false, List, [], ◌∷◌, Str, codes}

abbrev pub max_devices : ℕ
max_devices = 64

abbrev pub dev_path_len : ℕ
dev_path_len = 256

abbrev pub label_len : ℕ
label_len = 256

abbrev pub vendor_len : ℕ
vendor_len = 256

abbrev pub fs_type_len : ℕ
fs_type_len = 64

abbrev pub mount_point_len : ℕ
mount_point_len = 512

-- `allowed_fs_types`
abbrev pub allowed_fs_types : List Str
allowed_fs_types =
    codes "vfat"
    ∷ codes "exfat"
    ∷ codes "ext2"
    ∷ codes "ext3"
    ∷ codes "ext4"
    ∷ codes "ntfs"
    ∷ codes "ntfs3"
    ∷ codes "iso9660"
    ∷ codes "udf"
    ∷ []

-- `struct Device`
pub record Device : Type 0 where
  pub dev_path : Str
  pub label : Str
  pub vendor : Str
  pub fs_type : Str
  pub mount_point : Str
  pub is_mounted : Bool
  pub is_ejectable : Bool
  pub is_luks : Bool
  pub is_unlocked : Bool
  pub luks_opened_by_us : Bool
  pub luks_uuid : Str
  pub dm_name : Str
  pub dm_path : Str
  pub inner_fs_type : Str

-- `memset(d, 0, sizeof(*d))`
abbrev pub zeroed : Device
zeroed = record {
  dev_path = [];
  label = [];
  vendor = [];
  fs_type = [];
  mount_point = [];
  is_mounted = false;
  is_ejectable = false;
  is_luks = false;
  is_unlocked = false;
  luks_opened_by_us = false;
  luks_uuid = [];
  dm_name = [];
  dm_path = [];
  inner_fs_type = [];
}

-- The part of `MountDaemon` that the operations read and write: `ndevices` is the list's length.
pub record MountDaemon : Type 0 where
  pub devices : List Device
  pub mount_base : Str
  pub auto_mount : Bool
  -- whether there is a connection to the system bus
  pub dbus : Bool
