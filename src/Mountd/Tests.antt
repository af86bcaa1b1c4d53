-- ===== src/Mountd/Tests.antt =====
-- The theorems on isde-mountd at concrete inputs, and runs of its handlers.
use isde.Common.{
  ◌≡◌, refl, true, false, List, [], ◌∷◌, none, some, arith, Str, codes, if◌then◌else◌, length,
  str_eq, ◌==◌, ◌≤◌,
}
use isde.Mountd.Device.{Device, zeroed}
use isde.Mountd.Label.{sanitize_label}
use isde.Mountd.Label.Safety.{IsComponent, sanitize_label-IsComponent}
use isde.Mountd.Table.{find_device, add_device, remove_device}
use isde.Mountd.Table.Laws.{find-remove}
use isde.Mountd.Table.Add.{AddDone, add_device-AddDone}
use isde.Mountd.Table.Valid.{IsValid}
use isde.Mountd.World.{Os, World, activated, made, set_devices}
use isde.Mountd.World.Triple.{Post}
use isde.Mountd.Mount.{do_mount, do_unmount, do_eject}
use isde.Mountd.Mount.Safety.{IsSafeLog}
use isde.Mountd.Mount.Done.{MountDone, MountRefused, UnmountDone, EjectDone, EjectRefused}
use isde.Mountd.Mount.Called.{MountCalled, UmountCalled, EjectCalled}
use isde.Mountd.Mount.Outcome.{do_mount-MountDone, do_unmount-UnmountDone, do_eject-EjectDone}
use isde.Mountd.Udev.{UdevDevice}
use isde.Mountd.Dbus.{Message}
use isde.Mountd.Daemon.{Input, monitor, message, start, run}
use isde.Mountd.Daemon.Invariant.{run-start-IsSafeLog, run-start-IsValid}

-- A kernel on which everything works; uid 1000 is "ann", and no other uid has a name.
abbrev calm : Os
calm = record {
  crypt_init = λ es dev. true;
  crypt_load = λ es dev. true;
  crypt_activate = λ es dev dm passphrase. activated;
  crypt_init_by_name = λ es dm. true;
  crypt_deactivate = λ es dm. true;
  crypt_is_active = λ es dm. false;
  new_probe = λ es path. true;
  safe_probe = λ es path. true;
  probed_type = λ es path. some (codes "ext4");
  passwd = λ es uid. if uid == 1000 then some (codes "ann", 100) else none;
  make_dir = λ es path. made;
  mounts = λ es call. true;
  umounts = λ es path. true;
  ejects = λ es path. true;
}

abbrev stick : UdevDevice
stick = record {
  action = some (codes "add");
  devnode = some (codes "/dev/sdb1");
  devtype = some (codes "partition");
  property = λ key.
      if str_eq key (codes "ID_BUS")
      then some (codes "usb")
      else if str_eq key (codes "ID_FS_TYPE")
      then some (codes "vfat")
      else if str_eq key (codes "ID_FS_LABEL")
      then some (codes "../etc")
      else none;
  has_parent_disk = false;
  parent_removable = none;
  own_removable = none;
}

abbrev call : Str → Message
call method = record {
  is_call = true;
  interface = some (codes "org.isde.DiskManager");
  member = some method;
  signature = some (codes "s");
  strings = codes "/dev/sdb1" ∷ [];
  caller_uid = some 1000;
}

abbrev history : List Input
history =
    monitor (some stick) ∷ message (call (codes "Mount")) ∷ message (call (codes "Unmount")) ∷ []

abbrev disk : Device
disk = record zeroed {
  dev_path = codes "/dev/sdb1";
  label = codes "data";
  fs_type = codes "vfat";
  is_ejectable = true;
}

abbrev vault : Device
vault = record zeroed {
  dev_path = codes "/dev/sdc1";
  label = codes "vault";
  fs_type = codes "crypto_LUKS";
  is_luks = true;
  dm_name = codes "luks-1";
  dm_path = codes "/dev/mapper/luks-1";
  inner_fs_type = codes "ext4";
}

abbrev world : World
world = record {
  md = record {
    devices = disk ∷ vault ∷ [];
    mount_base = codes "/media";
    auto_mount = false;
    dbus = true;
  };
  log = [];
}

abbrev mounted_world : World
mounted_world =
    set_devices
      (record disk { is_mounted = true; mount_point = codes "/media/ann/data" } ∷ vault ∷ []) world

world-IsValid : IsValid world.devices
unfolding find_device str_eq
world-IsValid = record {
  table = record { distinct = (refl, (refl, tt)); bounded = omega arith };
  consistent = (
    record { mount_point = refl; ours_unlocked = refl },
    (record { mount_point = refl; ours_unlocked = refl }, tt),
  );
}

mounted_world-IsValid : IsValid mounted_world.devices
unfolding find_device str_eq
mounted_world-IsValid = record {
  table = record { distinct = (refl, (refl, tt)); bounded = omega arith };
  consistent = (
    record { mount_point = refl; ours_unlocked = refl },
    (record { mount_point = refl; ours_unlocked = refl }, tt),
  );
}

run-start-IsSafeLog_example :
    IsSafeLog calm
      (codes "/media")
      (run calm (start (codes "/media") true true [] (λ dm. false) []) history).log
run-start-IsSafeLog_example =
    run-start-IsSafeLog calm (codes "/media") true true [] (λ dm. false) [] history

run-start-IsValid_example :
    IsValid
      (run calm
        (start
          (codes "/media")
          true
          true
          (stick ∷ [])
          (λ dm. false)
          ((codes "/dev/sdb1", codes "/mnt") ∷ []))
        history).devices
run-start-IsValid_example =
    run-start-IsValid calm (codes "/media") true true (stick ∷ []) (λ dm. false)
      ((codes "/dev/sdb1", codes "/mnt") ∷ []) history (omega arith, tt) (refl, tt)
      (omega arith, (tt, (tt, tt)))

do_mount-MountDone_example :
    Post
      (λ mp u.
        MountDone (codes "/dev/sdb1") world.devices mp u.devices
        × MountCalled calm (codes "/dev/sdb1") mp u)
      (λ u. MountRefused (codes "/dev/sdb1") world.devices u.devices)
      (do_mount calm (codes "/dev/sdb1") 1000 [] world)
do_mount-MountDone_example = do_mount-MountDone calm (codes "/dev/sdb1") 1000 [] world world-IsValid

do_unmount-UnmountDone_example :
    Post
      (λ e u.
        UnmountDone (codes "/dev/sdb1") mounted_world.devices u.devices
        × UmountCalled calm (codes "/dev/sdb1") mounted_world.devices u.log)
      (λ u. u.devices ≡ mounted_world.devices)
      (do_unmount calm (codes "/dev/sdb1") mounted_world)
do_unmount-UnmountDone_example =
    do_unmount-UnmountDone calm (codes "/dev/sdb1") mounted_world mounted_world-IsValid

do_eject-EjectDone_example :
    Post
      (λ _ u.
        EjectDone (codes "/dev/sdb1") mounted_world.devices u.devices
        × EjectCalled calm (codes "/dev/sdb1") u.log)
      (λ u. EjectRefused (codes "/dev/sdb1") mounted_world.devices u.devices)
      (do_eject calm (codes "/dev/sdb1") mounted_world)
do_eject-EjectDone_example =
    do_eject-EjectDone calm (codes "/dev/sdb1") mounted_world mounted_world-IsValid

sanitize_label-IsComponent_example :
    IsComponent (sanitize_label 255 (codes "../etc"))
    × (length (sanitize_label 255 (codes "../etc")) ≤ 255)
sanitize_label-IsComponent_example = sanitize_label-IsComponent 255 (codes "../etc") (omega arith)

climbing_label : sanitize_label 255 (codes "../etc") ≡ codes "_._etc"
unfolding sanitize_label
climbing_label = refl

find-remove_example :
    find_device (codes "/dev/sdc1") (remove_device (codes "/dev/sdb1") world.devices) ≡ some vault
unfolding find_device str_eq
find-remove_example =
    find-remove (codes "/dev/sdc1") (codes "/dev/sdb1") world.devices world-IsValid.table.distinct

add_device-AddDone_example :
    AddDone
      (codes "/dev/sdd1")
      world.devices
      (add_device (codes "/dev/sdd1") (codes "new") [] (codes "ext4") true world.devices)
add_device-AddDone_example =
    add_device-AddDone (codes "/dev/sdd1") (codes "new") [] (codes "ext4") true world.devices
      (omega arith) world-IsValid.table
