-- ===== src/Mountd/Mount.antt =====
-- mountd/src/mount_ops.c on Linux: mount, unmount and eject. `mountd_do_mount` is cut at its stages,
-- in the order of the code; each stage fails where the code returns -1.
pub mod Safety
pub mod Reads
pub mod Ready
pub mod Called
pub mod Effect
pub mod Done
pub mod Outcome
use isde.Common.{
  ℕ, zero, suc, ◌==◌, ◌&&◌, ◌||◌, not, ◌++◌, Bool, true, false, List, [], ◌∷◌, Option, none, some,
  Str, str_eq, codes, fit, is_empty, if◌then◌else◌,
}
use isde.Mountd.Device.{Device, mount_point_len, fs_type_len, label_len}
use isde.Mountd.Table.{remove_device}
use isde.Mountd.Label.{is_fs_type_allowed, sanitize_label}
use isde.Mountd.World.{
  MountCall, Event, mkdir, rmdir, mount, umount, eject, Made, made, exists, not_made, Os, World, M,
  ok, err, pure, throw, require, ◌>>=◌, ◌>>◌, record_event, set_devices, save, tracked, Error,
  already_mounted, passphrase_required, no_dm_name, unknown_inner_fs, unknown_fs, not_allowed,
  unresolved_uid, cannot_create, mount_failed, not_mounted, umount_failed, eject_failed,
}
use isde.Mountd.Luks.{luks_open, luks_close, luks_probe_fs}

-- `mount_dev` and `fs`
abbrev pub source_of : Device → Str
source_of dev = if dev.is_luks then dev.dm_path else dev.dev_path

abbrev pub fs_of : Device → Str
fs_of dev = if dev.is_luks then dev.inner_fs_type else dev.fs_type

abbrev pub is_fat : Str → Bool
is_fat fs = str_eq fs (codes "vfat") || str_eq fs (codes "exfat")

-- The call of mount(2) in `plat_mount`.
abbrev pub mount_call : (source target fs : Str) (uid gid : ℕ) → MountCall
mount_call source target fs uid gid = record {
  source = source;
  target = target;
  fs = fs;
  nosuid = true;
  nodev = true;
  relatime = true;
  noexec = is_fat fs;
  owner = if is_fat fs then some (uid, gid) else none;
}

-- /media/<user>/<label>
abbrev pub target_of : (base user label : Str) → Str
target_of base user label =
    fit mount_point_len (base ++ b'/' ∷ (user ++ b'/' ∷ sanitize_label 255 label))

module _ (os : Os) where
  -- One mkdir(2) of `mkdir_p`: false for an error other than EEXIST.
  pub make_one : Str → M Bool
  make_one path w = elim (os.make_dir w.log path) [
    | made ↦ (ok true, record w { log = mkdir path true ∷ w.log })
    | exists ↦ (ok true, record w { log = mkdir path false ∷ w.log })
    | not_made ↦ (ok false, record w { log = mkdir path false ∷ w.log })
  ]

  -- The loop of `mkdir_p`: `front` lies before the pointer p, the list from p on.
  pub make_dirs : (front rest : Str) → M Bool
  make_dirs front [] = make_one front
  make_dirs front (c ∷ s) = do
    made_it ← (if c == b'/' then make_one front else pure true)
    if made_it then make_dirs (front ++ c ∷ []) s else pure false

  -- `mkdir_p`; the loop starts behind the first byte.
  pub mkdir_p : Str → M Bool
  mkdir_p [] = make_dirs [] []
  mkdir_p (c ∷ s) = make_dirs (c ∷ []) s

  -- `if (dev->is_luks && dev->luks_opened_by_us) { mountd_luks_close(...); ... }` of the error paths:
  -- what the call returns is not read.
  pub close_ours : Device → M (Unit {0})
  close_ours dev =
      if dev.is_luks && dev.luks_opened_by_us
      then (do
        luks_close os dev.dm_name
        save (record dev { is_unlocked = false; luks_opened_by_us = false }))
      else pure tt

  pub open_container : Device → (passphrase : Str) → M Device
  open_container dev passphrase = if dev.is_unlocked then pure dev else (do
    luks_open os dev.dev_path dev.dm_name passphrase
    save (record dev { is_unlocked = true; luks_opened_by_us = true })
    pure (record dev { is_unlocked = true; luks_opened_by_us = true }))

  pub probed : Device → Option Str → M Device
  probed dev none = do close_ours dev; throw unknown_inner_fs
  probed dev (some t) = do
    save (record dev { inner_fs_type = t })
    pure (record dev { inner_fs_type = t })

  pub probe_container : Device → M Device
  probe_container dev =
      if is_empty dev.inner_fs_type
      then (λ w. probed dev (luks_probe_fs os dev.dm_path w) w)
      else pure dev

  -- The LUKS block of `mountd_do_mount`.
  pub unlock : Device → (passphrase : Str) → M Device
  unlock dev passphrase =
      if dev.is_luks
      then (do
        require (not (is_empty passphrase)) passphrase_required
        require (not (is_empty dev.dm_name)) no_dm_name
        opened ← open_container dev passphrase
        probe_container opened)
      else pure dev

  pub check_fs : Device → M (Unit {0})
  check_fs dev = do
    require (not (is_empty (fs_of dev))) unknown_fs
    if is_fs_type_allowed (fs_of dev)
        then pure tt
        else (do close_ours dev; throw (not_allowed (fs_of dev)))

  pub attached : Device → MountCall → Bool → M Str
  attached dev call true = do
    record_event (mount call true)
    save (record dev { is_mounted = true; mount_point = call.target })
    pure call.target
  attached dev call false = do
    record_event (mount call false)
    record_event (rmdir call.target)
    close_ours dev
    throw mount_failed

  -- `plat_mount`, and what follows it.
  pub attach : Device → MountCall → M Str
  attach dev call w = attached dev call (os.mounts w.log call) w

  pub mount_at : Device → (uid gid : ℕ) → (target : Str) → M Str
  mount_at dev uid gid target = do
    created ← mkdir_p target
    require created (cannot_create target)
    attach dev (mount_call (source_of dev) target (fs_of dev) uid gid)

  pub resolved : Device → (uid : ℕ) → Option (Str × ℕ) → M Str
  resolved dev uid none = throw (unresolved_uid uid)
  resolved dev uid (some (user, gid)) =
      λ w. mount_at dev uid gid (target_of w.mount_base user dev.label) w

  -- `mountd_do_mount`: the mount point.
  pub do_mount : (dev_path : Str) (caller_uid : ℕ) (passphrase : Str) → M Str
  do_mount p uid passphrase = do
    dev ← tracked p
    require (not dev.is_mounted) (already_mounted dev.mount_point)
    ready ← unlock dev passphrase
    check_fs ready
    λ w. resolved ready uid (os.passwd w.log uid) w

  -- `if (dev->is_luks && dev->is_unlocked && dev->luks_opened_by_us)` of unmount and eject: here the
  -- flags are cleared only if the container was closed.
  pub close_idle : Device → M Device
  close_idle dev =
      if dev.is_luks && dev.is_unlocked && dev.luks_opened_by_us
      then (do
        closed ← luks_close os dev.dm_name
        if closed
            then (do
              save (record dev {
                is_unlocked = false;
                luks_opened_by_us = false;
                inner_fs_type = [];
              })
              pure (record dev {
                is_unlocked = false;
                luks_opened_by_us = false;
                inner_fs_type = [];
              }))
            else pure dev)
      else pure dev

  pub detached : Device → Bool → M Device
  detached dev true = do
    record_event (umount dev.mount_point true)
    record_event (rmdir dev.mount_point)
    save (record dev { is_mounted = false; mount_point = [] })
    pure (record dev { is_mounted = false; mount_point = [] })
  detached dev false = do record_event (umount dev.mount_point false); throw umount_failed

  -- umount(2), and what follows it.
  pub detach : Device → M Device
  detach dev w = detached dev (os.umounts w.log dev.mount_point) w

  -- `mountd_do_unmount`; what it returns here is the entry as it leaves it.
  pub do_unmount : (dev_path : Str) → M Device
  do_unmount p = do
    dev ← tracked p
    require dev.is_mounted not_mounted
    free ← detach dev
    close_idle free

  -- `md->plat->eject`
  pub expel : (dev_path : Str) → M (Unit {0})
  expel p w =
      if os.ejects w.log p
      then (ok tt, record w { log = eject p true ∷ w.log })
      else (err (eject_failed p), record w { log = eject p false ∷ w.log })

  -- `mountd_do_eject`
  pub do_eject : (dev_path : Str) → M (Unit {0})
  do_eject p = do
    dev ← tracked p
    idle ← (if dev.is_mounted then do_unmount p else pure dev)
    close_idle idle
    expel p
    λ w. (ok tt, set_devices (remove_device p w.devices) w)
