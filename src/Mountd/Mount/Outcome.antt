-- ===== src/Mountd/Mount/Outcome.antt =====
-- The whole of `mountd_do_mount`, `mountd_do_unmount` and `mountd_do_eject`: what each leaves of the
-- table, when it succeeds and when it fails.
use isde.Common.{
  ℕ, ◌≡◌, refl, true, false, List, Option, none, some, arith, Str, if◌then◌else◌, sym, ◌∙◌, not,
  str_eq_refl,
}
use mathlib.Core.Path.{subst}
use isde.Mountd.Device.{Device}
use isde.Mountd.Table.{find_device, remove_device}
use isde.Mountd.Table.Laws.{find-remove, remove-IsTable}
use isde.Mountd.Table.Each.{All-remove}
use isde.Mountd.Table.Valid.{IsConsistent, IsValid, Held, Held-start, Held-IsConsistent}
use isde.Mountd.World.{Os, World, pure, tracked}
use isde.Mountd.World.Triple.{Triple, Post, bind, seq, branch, returns, required, weaken, both}
use isde.Mountd.Mount.{do_mount, do_unmount, do_eject, close_idle, detach, expel}
use isde.Mountd.Mount.Reads.{expel-Reads}
use isde.Mountd.Mount.Effect.{Mounted, mount-Mounted, closed-Held, detached-Held}
use isde.Mountd.Mount.Called.{
  MountCalled, UmountCalled, EjectCalled, do_unmount-Umounted, do_eject-EjectCalled,
}
use isde.Mountd.Mount.Ready.{Unmounted}
use isde.Mountd.Mount.Done.{
  is_tracked, only_at, MountDone, MountRefused, MountRefused-same, EjectDone, EjectRefused,
  UnmountDone,
}

module _ (os : Os) (p : Str) (ds : List Device) (v : IsValid ds) where
  -- Before the first write.
  abbrev Start : World → Type 0
  Start w = w.devices ≡ ds

  tracked-Held :
      Triple Start
        (tracked p)
        (λ d w. (find_device p ds ≡ some d) × Held p ds d w.devices × (w.devices ≡ ds))
        Start
  unfolding tracked
  tracked-Held = record { run = λ w e. look w e (find_device p w.devices) refl }
    where
      look :
          (w : World) (e : w.devices ≡ ds) (o : Option Device)
          → find_device p w.devices ≡ o
          → Post
              (λ d u. (find_device p ds ≡ some d) × Held p ds d u.devices × (u.devices ≡ ds))
              Start
              (tracked p w)
      look w e none h = rw (h, tracked) e
      look w e (some d) h =
          let found : find_device p ds ≡ some d = rw (← e) h in
          rw (h, tracked) (found, subst (Held p ds d) (sym e) (Held-start v found), e)

  same-refused : (w : World) → Start w → MountRefused p ds w.devices
  same-refused w e = rw e (MountRefused-same p ds v)

  module _ (d : Device) (found : find_device p ds ≡ some d) where
    done :
        (mp : Str) (u : World)
        → d.is_mounted ≡ false
        → Mounted os p ds mp u
        → MountDone p ds mp u.devices × MountCalled os p mp u
    done mp u off (e, h, on, at, last) = (
      record {
        rest = only_at h.others h.valid;
        was_tracked = ground (arith, found);
        was_free = ground (arith, found, off);
        now = ground (arith, h.found, on, at);
      },
      (e, h.found, last),
    )

    refused : (u : World) → d.is_mounted ≡ false → Unmounted os p ds u → MountRefused p ds u.devices
    refused u off (e, h, still) = record {
      rest = only_at h.others h.valid;
      same_tracked = ground (arith, found, h.found);
      same_mount = ground (arith, found, off, h.found, still);
    }

    unmounted :
        (e : Device) (u : World)
        → d.is_mounted ≡ true
        → Held p ds e u.devices
        → e.is_mounted ≡ false
        → UnmountDone p ds u.devices
    unmounted e u on h off = record {
      rest = only_at h.others h.valid;
      same_tracked = ground (arith, found, h.found);
      was_mounted = ground (arith, found, on);
      now = ground (arith, h.found, off);
    }

  off_of : (d : Device) → not d.is_mounted ≡ true → d.is_mounted ≡ false
  off_of d h = ground arith

  do_mount-Triple :
      (uid : ℕ) (passphrase : Str)
      → Triple Start
          (do_mount os p uid passphrase)
          (λ mp w. MountDone p ds mp w.devices × MountCalled os p mp w)
          (λ w. MountRefused p ds w.devices)
  unfolding do_mount
  do_mount-Triple uid passphrase = bind (weaken tracked-Held (λ d w h. h) same-refused) (λ d.
      seq (required (not d.is_mounted) _ (λ w h. same-refused w h.2)) (λ _. record {
        run = λ w h.
            let off = off_of d h.0 in
            (weaken (mount-Mounted os p ds d uid passphrase off (Held-IsConsistent h.1.1))
                (λ mp u m. done d h.1.0 mp u off m) (λ u m. refused d h.1.0 u off m)).run
              w h.1.1;
      }))

  do_unmount-Triple :
      Triple Start
        (do_unmount os p)
        (λ e w. UnmountDone p ds w.devices × Held p ds e w.devices)
        Start
  unfolding do_unmount detach
  do_unmount-Triple = bind tracked-Held (λ d. seq (required d.is_mounted _ (λ w h. h.2)) (λ _.
      record {
        run = λ w h.
            (bind
                (detached-Held os p ds d (os.umounts w.log d.mount_point) (Held-IsConsistent h.1.1))
                (λ e. record {
                  run = λ u k.
                      (weaken (closed-Held os p ds e (Held-IsConsistent k.0))
                          (λ f x m. (unmounted d h.1.0 f x h.0 m.0 (ground (arith, m.1, k.1)), m.0))
                          (λ x m. absurd m)).run
                        u k.0;
                })).run
              w (h.1.1, h.1.2);
      }))

  Kept : Device → World → Type 0
  Kept e w = (is_tracked p ds ≡ true) × Held p ds e w.devices

  Kept-refused : (e : Device) (w : World) → Kept e w → EjectRefused p ds w.devices
  unfolding Kept
  Kept-refused e w (t, h) = record {
    rest = only_at h.others h.valid;
    same_tracked = ground (arith, t, h.found);
  }

  ejected : (e : Device) (w : World) → Kept e w → EjectDone p ds (remove_device p w.devices)
  unfolding Kept
  ejected e w (t, h) = record {
    rest =
        only_at (λ q k. find-remove q p w.devices h.valid.table.distinct ∙ rw k (h.others q k))
          (record {
            table = remove-IsTable p w.devices h.valid.table;
            consistent = All-remove IsConsistent p w.devices h.valid.consistent;
          });
    was_tracked = t;
    gone = ground (arith, find-remove p p w.devices h.valid.table.distinct, str_eq_refl p);
  }

  Start-refused : (w : World) → Start w → EjectRefused p ds w.devices
  Start-refused w e = rw e (record { rest = only_at (λ q h. refl) v; same_tracked = refl })

  closing : (e : Device) → Triple (Kept e) (close_idle os e) Kept (λ w. EjectRefused p ds w.devices)
  unfolding Kept
  closing e = record {
    run = λ w h.
        (weaken (closed-Held os p ds e (Held-IsConsistent h.1)) (λ f u k. (h.0, k.0))
            (λ u k. absurd k)).run
          w h.1;
  }

  expelled :
      (e : Device) → Triple (Kept e) (expel os p) (λ _. Kept e) (λ w. EjectRefused p ds w.devices)
  unfolding Kept
  expelled e =
      weaken (expel-Reads os p (λ es. (is_tracked p ds ≡ true) × Held p ds e es)) (λ a w h. h)
        (λ w h. Kept-refused e w h)

  idle_entry :
      (d : Device)
      → Triple
          (λ w. (find_device p ds ≡ some d) × Held p ds d w.devices × (w.devices ≡ ds))
          (if d.is_mounted then do_unmount os p else pure d)
          Kept
          (λ w. EjectRefused p ds w.devices)
  unfolding Kept
  idle_entry d =
      branch d.is_mounted
        (λ on. record {
          run = λ w h.
              (weaken do_unmount-Triple (λ e u k. (ground (arith, h.0), k.1))
                  (λ u k. Start-refused u k)).run
                w h.2;
        })
        (λ off. returns d (λ w h. (ground (arith, h.0), h.1)))

  do_eject-Triple :
      Triple Start
        (do_eject os p)
        (λ _ w. EjectDone p ds w.devices)
        (λ w. EjectRefused p ds w.devices)
  unfolding do_eject
  do_eject-Triple = bind (weaken tracked-Held (λ d w h. h) Start-refused) (λ d.
      bind (idle_entry d) (λ e.
        bind (closing e) (λ f. seq (expelled f) (λ _. record { run = λ w k. ejected f w k }))))

-- From a well-formed table, `mountd_do_mount` either mounts the device, which was tracked and not
-- mounted, and returns the path that the table then holds for it, after mount(2) as its last call was
-- asked to mount the device, or its container, on this path and succeeded; or it fails and the device is
-- tracked and mounted as before. Either way every other entry is unchanged and the table stays well
-- formed.
pub do_mount-MountDone :
    (os : Os) (p : Str) (uid : ℕ) (passphrase : Str) (w : World)
    → IsValid w.devices
    → Post
        (λ mp u. MountDone p w.devices mp u.devices × MountCalled os p mp u)
        (λ u. MountRefused p w.devices u.devices)
        (do_mount os p uid passphrase w)
do_mount-MountDone os p uid passphrase w v =
    (do_mount-Triple os p w.devices v uid passphrase).run w refl

-- `mountd_do_unmount` either leaves the device, which was mounted, tracked and not mounted, every other
-- entry unchanged and the table well formed, after umount(2) of its mount point was called and
-- succeeded; or it fails and the table is what it was.
pub do_unmount-UnmountDone :
    (os : Os) (p : Str) (w : World)
    → IsValid w.devices
    → Post
        (λ e u. UnmountDone p w.devices u.devices × UmountCalled os p w.devices u.log)
        (λ u. u.devices ≡ w.devices)
        (do_unmount os p w)
do_unmount-UnmountDone os p w v =
    (weaken (both (do_unmount-Triple os p w.devices v) (do_unmount-Umounted os p w.devices))
        (λ e u k. (k.0.0, k.1)) (λ u k. k.0)).run
      w (refl, refl)

-- `mountd_do_eject` either takes the device, which was tracked, off the table, after the eject as its last
-- call succeeded, or it fails and the
-- device is still tracked. Either way every other entry is unchanged and the table stays well formed.
pub do_eject-EjectDone :
    (os : Os) (p : Str) (w : World)
    → IsValid w.devices
    → Post
        (λ _ u. EjectDone p w.devices u.devices × EjectCalled os p u.log)
        (λ u. EjectRefused p w.devices u.devices)
        (do_eject os p w)
do_eject-EjectDone os p w v =
    (weaken (both (do_eject-Triple os p w.devices v) (do_eject-EjectCalled os p)) (λ a u k. k)
        (λ u k. k.0)).run
      w (refl, tt)
