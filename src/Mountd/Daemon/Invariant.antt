-- ===== src/Mountd/Daemon/Invariant.antt =====
-- Invariants of the daemon over every history of device events and bus messages.
use isde.Common.{refl, Bool, List, [], ◌∷◌, none, some, Str}
use isde.Mountd.World.{Os, World}
use isde.Mountd.World.Triple.{either}
use isde.Mountd.Mount.{do_mount, do_unmount, do_eject}
use isde.Mountd.Mount.Safety.{
  IsSafe, IsSafeLog, do_mount-IsSafe, do_unmount-IsSafe, do_eject-IsSafe,
}
use isde.Mountd.Mount.Outcome.{do_mount-MountDone, do_unmount-UnmountDone, do_eject-EjectDone}
use isde.Mountd.Table.Valid.{IsValid}
use isde.Mountd.Udev.{UdevDevice}
use isde.Mountd.Monitor.Safety.{emits-IsSafe, monitor_dispatch-IsSafe}
use isde.Mountd.Monitor.New.{FitsNode}
use isde.Mountd.Monitor.Enumerate.{AllNodesFit}
use isde.Mountd.Refresh.Valid.{Named}
use isde.Mountd.Daemon.Start.{start-IsValid}
use isde.Mountd.Monitor.Valid.{
  monitor_dispatch-none-IsValid, emits-IsValid, monitor_dispatch-IsValid,
}
use isde.Mountd.Dbus.Invariant.{handle_method-keeps}
use isde.Mountd.Daemon.{Input, monitor, message, start, step, run}

-- A device node that fits its buffer, in a device event.
abbrev pub Fits : Input → Type 0
Fits (monitor none) = Unit {0}
Fits (monitor (some dev)) = FitsNode dev.devnode
Fits (message msg) = Unit {0}

abbrev pub AllFit : List Input → Type 0
AllFit [] = Unit {0}
AllFit (i ∷ is) = Fits i × AllFit is

module _ (os : Os) where
  step-IsValid :
      (w : World) (i : Input) → Fits i → IsValid w.devices → IsValid (step os w i).devices
  unfolding step
  step-IsValid w (monitor none) f v = monitor_dispatch-none-IsValid os w v
  step-IsValid w (monitor (some dev)) f v = monitor_dispatch-IsValid os dev w f v
  step-IsValid w (message msg) f v =
      handle_method-keeps os (λ u. IsValid u.devices) (emits-IsValid os)
        (λ p uid passphrase u i.
          either (λ x. IsValid x.devices) (do_mount os p uid passphrase u)
            (do_mount-MountDone os p uid passphrase u i) (λ mp x h. h.0.rest.valid)
            (λ x h. h.rest.valid))
        (λ p u i.
          either (λ x. IsValid x.devices) (do_unmount os p u) (do_unmount-UnmountDone os p u i)
            (λ e x h. h.0.rest.valid) (λ x h. rw h i))
        (λ p u i.
          either (λ x. IsValid x.devices) (do_eject os p u) (do_eject-EjectDone os p u i)
            (λ e x h. h.0.rest.valid) (λ x h. h.rest.valid))
        msg w v

  run-IsValid :
      (w : World) (is : List Input) → AllFit is → IsValid w.devices → IsValid (run os w is).devices
  unfolding run
  run-IsValid w [] f v = v
  run-IsValid w (i ∷ is) f v = run-IsValid (step os w i) is f.1 (step-IsValid w i f.0 v)

  module _ (base : Str) where
    step-IsSafe : (w : World) (i : Input) → IsSafe os base w → IsSafe os base (step os w i)
    unfolding step
    step-IsSafe w (monitor dev) v = monitor_dispatch-IsSafe os base dev w v
    step-IsSafe w (message msg) v =
        handle_method-keeps os (IsSafe os base) (emits-IsSafe os base)
          (λ p uid passphrase u i.
            either (IsSafe os base) (do_mount os p uid passphrase u)
              ((do_mount-IsSafe os base p uid passphrase).run u i) (λ a x h. h) (λ x h. h))
          (λ p u i.
            either (IsSafe os base) (do_unmount os p u) ((do_unmount-IsSafe os base p).run u i)
              (λ a x h. h) (λ x h. h))
          (λ p u i.
            either (IsSafe os base) (do_eject os p u) ((do_eject-IsSafe os base p).run u i)
              (λ a x h. h) (λ x h. h))
          msg w v

    run-IsSafe : (w : World) (is : List Input) → IsSafe os base w → IsSafe os base (run os w is)
    unfolding run
    run-IsSafe w [] v = v
    run-IsSafe w (i ∷ is) v = run-IsSafe (step os w i) is (step-IsSafe w i v)

module _ (os : Os) (base : Str) (auto_mount dbus : Bool) (present : List UdevDevice)
    (active : Str → Bool) (mount_table : List (Str × Str)) (is : List Input) where
  -- Whatever udev, the bus and the kernel do after the start, every mount that the daemon ever asks
  -- for, for a caller or by itself, is nosuid and nodev, noexec for FAT, of an allowed filesystem, and
  -- on <mount_base>/<user>/<name>, cut to the buffer, for a user that getpwuid(3) answered for a uid and a
  -- name that is one visible path component.
  pub run-start-IsSafeLog :
      IsSafeLog os base (run os (start base auto_mount dbus present active mount_table) is).log
  unfolding start
  run-start-IsSafeLog =
      (run-IsSafe os base (start base auto_mount dbus present active mount_table) is
        (record { mount_base = refl; safe_log = tt })).safe_log

  -- If every device node is shorter than DEV_PATH_LEN and the mount table has no empty mount point, then
  -- after every history the table holds at most 64 devices under distinct paths, an entry has a mount
  -- point exactly when it is marked mounted, and a container that the daemon opened is marked unlocked.
  pub run-start-IsValid :
      AllNodesFit present
      → Named mount_table
      → AllFit is
      → IsValid (run os (start base auto_mount dbus present active mount_table) is).devices
  run-start-IsValid fits named all =
      run-IsValid os (start base auto_mount dbus present active mount_table) is all
        (start-IsValid base auto_mount dbus present active mount_table fits named)
