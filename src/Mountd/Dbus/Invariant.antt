-- ===== src/Mountd/Dbus/Invariant.antt =====
-- A property of the daemon that mount, unmount, eject and a signal keep is kept by every method call.
use isde.Common.{ℕ, Option, none, some, Str, arith}
use isde.Mountd.Device.{Device}
use isde.Mountd.World.{Os, World, Signal, emits, Result, ok, err}
use isde.Mountd.Mount.{do_mount, do_unmount, do_eject}
use isde.Mountd.Dbus.{
  Message, handle_list_devices, mounted_reply, mount_for, handle_mount, unmounted_reply,
  unmount_for, handle_unmount, ejected_reply, eject_for, handle_eject, own_method, dispatch,
  handle_method, mount_args, first_string,
}

module _ (os : Os) (I : World → Type 0) (sends : (s : Signal) (w : World) → I w → I (emits s w))
    (mounts : (p : Str) (uid : ℕ) (passphrase : Str) (w : World)
      → I w
      → I (do_mount os p uid passphrase w).1)
    (unmounts : (p : Str) (w : World) → I w → I (do_unmount os p w).1)
    (ejects : (p : Str) (w : World) → I w → I (do_eject os p w).1) where
  mounted : (p : Str) (r : Result Str × World) → I r.1 → I (mounted_reply os p r).1
  unfolding mounted_reply
  mounted p (ok mp, w) i = sends _ w i
  mounted p (err e, w) i = i

  mount_for-keeps :
      (a : Option (Str × Str)) (uid : Option ℕ) (w : World) → I w → I (mount_for os a uid w).1
  unfolding mount_for
  mount_for-keeps none uid w i = i
  mount_for-keeps (some (p, passphrase)) none w i = i
  mount_for-keeps (some (p, passphrase)) (some uid) w i =
      mounted p (do_mount os p uid passphrase w) (mounts p uid passphrase w i)

  unmounted : (p : Str) (r : Result Device × World) → I r.1 → I (unmounted_reply os p r).1
  unfolding unmounted_reply
  unmounted p (ok d, w) i = sends _ w i
  unmounted p (err e, w) i = i

  unmount_for-keeps : (a : Option Str) (w : World) → I w → I (unmount_for os a w).1
  unfolding unmount_for
  unmount_for-keeps none w i = i
  unmount_for-keeps (some p) w i = unmounted p (do_unmount os p w) (unmounts p w i)

  ejected : (p : Str) (r : Result (Unit {0}) × World) → I r.1 → I (ejected_reply os p r).1
  unfolding ejected_reply
  ejected p (ok u, w) i = sends _ _ (sends _ w i)
  ejected p (err e, w) i = i

  eject_for-keeps : (a : Option Str) (w : World) → I w → I (eject_for os a w).1
  unfolding eject_for
  eject_for-keeps none w i = i
  eject_for-keeps (some p) w i = ejected p (do_eject os p w) (ejects p w i)

  own_method-keeps :
      (msg : Message) (member : Str) (w : World) → I w → I (own_method os msg member w).1
  unfolding own_method handle_list_devices handle_mount handle_unmount handle_eject
  own_method-keeps msg member w i = ground (
    arith,
    mount_for-keeps (mount_args msg) msg.caller_uid w i,
    unmount_for-keeps (first_string msg.strings) w i,
    eject_for-keeps (first_string msg.strings) w i,
  )

  dispatch-keeps :
      (msg : Message) (member : Option Str) (w : World) → I w → I (dispatch os msg member w).1
  unfolding dispatch
  dispatch-keeps msg none w i = i
  dispatch-keeps msg (some m) w i = ground (arith, own_method-keeps msg m w i)

  pub handle_method-keeps : (msg : Message) (w : World) → I w → I (handle_method os msg w).1
  unfolding handle_method
  handle_method-keeps msg w i = ground (arith, dispatch-keeps msg msg.member w i)
