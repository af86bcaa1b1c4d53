-- ===== src/Mountd/Dbus.antt =====
-- mountd/src/dbus.c: the method calls of org.isde.DiskManager.
pub mod Invariant
use isde.Common.{
  ℕ, ◌&&◌, Bool, true, false, List, [], ◌∷◌, map, Option, none, some, Str, str_eq, codes,
  if◌then◌else◌,
}
use isde.Mountd.Device.{Device}
use isde.Mountd.World.{
  Os, World, M, Result, ok, err, Error, emits, device_removed, device_mounted, device_unmounted,
}
use isde.Mountd.Udev.{is_text}
use mathlib.Core.Option
use isde.Mountd.Mount.{do_mount, do_unmount, do_eject}

-- What libdbus says of a message: `strings` are its leading arguments of type s.
pub record Message : Type 0 where
  pub is_call : Bool
  pub interface : Option Str
  pub member : Option Str
  pub signature : Option Str
  pub strings : List Str
  -- `get_caller_uid`; none where the sender or its uid is not known
  pub caller_uid : Option ℕ

-- The struct (sssssbbb) of ListDevices.
pub record Listed : Type 0 where
  pub dev_path : Str
  pub label : Str
  pub vendor : Str
  pub fs_type : Str
  pub mount_point : Str
  pub is_mounted : Bool
  pub is_ejectable : Bool
  pub is_luks : Bool

pub data Reply : Type 0 where
  not_handled introspected invalid_args auth_failed unknown_method : Reply
  listed : List Listed → Reply
  -- success, with the result string
  succeeded : Str → Reply
  refused : Error → Reply

list_one : Device → Listed
list_one d = record {
  dev_path = d.dev_path;
  label = d.label;
  vendor = d.vendor;
  fs_type = d.fs_type;
  mount_point = d.mount_point;
  is_mounted = d.is_mounted;
  is_ejectable = d.is_ejectable;
  is_luks = d.is_luks;
}

-- `handle_list_devices`
pub handle_list_devices : World → Reply × World
handle_list_devices w = (listed (map list_one w.devices), w)

abbrev pub first_string : List Str → Option Str
first_string [] = none
first_string (p ∷ rest) = some p

abbrev two_strings : List Str → Option (Str × Str)
two_strings [] = none
two_strings (p ∷ []) = none
two_strings (p ∷ q ∷ rest) = some (p, q)

-- The arguments of `handle_mount`: the passphrase is empty where the call has none.
pub mount_args : Message → Option (Str × Str)
mount_args msg =
    if is_text msg.signature (codes "ss")
    then two_strings msg.strings
    else Option.map (λ p. (p, [])) (first_string msg.strings)

module _ (os : Os) where
  pub mounted_reply : (dev_path : Str) → Result Str × World → Reply × World
  mounted_reply p (ok mp, w) = (succeeded mp, emits (device_mounted p mp) w)
  mounted_reply p (err e, w) = (refused e, w)

  pub mount_for : Option (Str × Str) → Option ℕ → World → Reply × World
  mount_for none uid w = (invalid_args, w)
  mount_for (some (p, passphrase)) none w = (auth_failed, w)
  mount_for (some (p, passphrase)) (some uid) w = mounted_reply p (do_mount os p uid passphrase w)

  -- `handle_mount`
  pub handle_mount : Message → World → Reply × World
  unfolding mount_for
  handle_mount msg w = mount_for (mount_args msg) msg.caller_uid w

  pub unmounted_reply : (dev_path : Str) → Result Device × World → Reply × World
  unmounted_reply p (ok d, w) = (succeeded [], emits (device_unmounted p) w)
  unmounted_reply p (err e, w) = (refused e, w)

  pub unmount_for : Option Str → World → Reply × World
  unmount_for none w = (invalid_args, w)
  unmount_for (some p) w = unmounted_reply p (do_unmount os p w)

  -- `handle_unmount`
  pub handle_unmount : Message → World → Reply × World
  unfolding unmount_for
  handle_unmount msg w = unmount_for (first_string msg.strings) w

  pub ejected_reply : (dev_path : Str) → Result (Unit {0}) × World → Reply × World
  ejected_reply p (ok u, w) =
      (succeeded [], emits (device_removed p) (emits (device_unmounted p) w))
  ejected_reply p (err e, w) = (refused e, w)

  pub eject_for : Option Str → World → Reply × World
  eject_for none w = (invalid_args, w)
  eject_for (some p) w = ejected_reply p (do_eject os p w)

  -- `handle_eject`
  pub handle_eject : Message → World → Reply × World
  unfolding eject_for
  handle_eject msg w = eject_for (first_string msg.strings) w

  -- The methods of the daemon's own interface.
  pub own_method : Message → (member : Str) → World → Reply × World
  own_method msg member w =
      if str_eq member (codes "ListDevices")
      then handle_list_devices w
      else if str_eq member (codes "Mount")
      then handle_mount msg w
      else if str_eq member (codes "Unmount")
      then handle_unmount msg w
      else if str_eq member (codes "Eject")
      then handle_eject msg w
      else (unknown_method, w)

  pub dispatch : Message → Option Str → World → Reply × World
  dispatch msg none w = (not_handled, w)
  dispatch msg (some member) w =
      if is_text msg.interface (codes "org.freedesktop.DBus.Introspectable")
        && str_eq member (codes "Introspect")
      then (introspected, w)
      else if is_text msg.interface (codes "org.isde.DiskManager")
      then own_method msg member w
      else (not_handled, w)

  -- `handle_method`
  pub handle_method : Message → World → Reply × World
  unfolding dispatch
  handle_method msg w = if msg.is_call then dispatch msg msg.member w else (not_handled, w)
