-- ===== src/Mountd/Mount/Called.antt =====
-- What the kernel was asked and answered when a mount, an unmount or an eject succeeds.
use isde.Common.{
  ap, ◌≡◌, refl, Bool, true, false, List, [], ◌∷◌, ◌++◌, some, Str, ◌&&◌, arith, Option-cases, inl,
  inr, if◌then◌else◌,
}
use isde.Mountd.Device.{Device}
use isde.Mountd.Table.{find_device}
use isde.Mountd.World.{
  MountCall, Event, mount, umount, eject, rmdir, Os, World, Result, ok, err, deactivate, M, pure,
  tracked, save, record_event,
}
use isde.Mountd.World.Triple.{Triple, Post, bind, seq, branch, returns, required, weaken}
use isde.Mountd.Luks.{luks_close}
use isde.Mountd.Mount.{source_of, close_idle, detached, detach, do_unmount, expel, do_eject}
use isde.Mountd.Mount.Done.{mounted_at}

-- The last call is mount(2) with this source and target, and the kernel answered that it succeeded.
pub record LastMount (os : Os) (source target : Str) (log : List Event) : Type 0 where
  pub before : List Event
  pub call : MountCall
  pub answered : os.mounts before call ≡ true
  pub same_source : call.source ≡ source
  pub same_target : call.target ≡ target
  pub last_call : log ≡ mount call true ∷ before

-- The device of p is tracked, and what was mounted is its device file, or its container where it is encrypted.
abbrev pub MountCalled : Os → (p target : Str) → World → Type 0
MountCalled os p target w =
    (d : Device) × (find_device p w.devices ≡ some d) × LastMount os (source_of d) target w.log

-- umount(2) of this path was called, and the kernel answered that it succeeded.
pub record Umounted (os : Os) (path : Str) (log : List Event) : Type 0 where
  pub before : List Event
  pub after : List Event
  pub answered : os.umounts before path ≡ true
  pub split : log ≡ after ++ umount path true ∷ before

-- The path is where the device of p was mounted.
abbrev pub UmountCalled : Os → Str → List Device → List Event → Type 0
UmountCalled os p ds log = (path : Str) × (mounted_at p ds ≡ some path) × Umounted os path log

-- The last call is the eject of this device, and it succeeded.
pub record EjectCalled (os : Os) (p : Str) (log : List Event) : Type 0 where
  pub before : List Event
  pub answered : os.ejects before p ≡ true
  pub last_call : log ≡ eject p true ∷ before

-- Nothing is said of the world.
abbrev pub Anything : World → Type 0
Anything w = Unit {0}

anything : {A : Type 0} {P : World → Type 0} (m : M A) → Triple P m (λ _. Anything) Anything
anything {A = A} m = record { run = λ w v. ended (m w) }
  where
    ended : (r : Result A × World) → Post (λ _. Anything) Anything r
    ended (ok a, w) = tt
    ended (err e, w) = tt

Umounted-more :
    (os : Os) (path : Str) (e : Event) (log : List Event)
    → Umounted os path log
    → Umounted os path (e ∷ log)
Umounted-more os path e log u = record {
  before = u.before;
  after = e ∷ u.after;
  answered = u.answered;
  split = ap (λ l. e ∷ l) u.split;
}

module _ (os : Os) where
  luks_close-Umounted :
      (path dm : Str)
      → Triple
          (λ w. Umounted os path w.log)
          (luks_close os dm)
          (λ _ w. Umounted os path w.log)
          Anything
  unfolding luks_close
  luks_close-Umounted path dm = record {
    run = λ w v.
        ground
          (arith, Umounted-more os path (deactivate dm (os.crypt_deactivate w.log dm)) w.log v);
  }

  save-Umounted :
      (path : Str) (d : Device)
      → Triple (λ w. Umounted os path w.log) (save d) (λ _ w. Umounted os path w.log) Anything
  unfolding save
  save-Umounted path d = record { run = λ w v. v }

  close_idle-Umounted :
      (path : Str) (d : Device)
      → Triple
          (λ w. Umounted os path w.log)
          (close_idle os d)
          (λ _ w. Umounted os path w.log)
          Anything
  unfolding close_idle
  close_idle-Umounted path d =
      branch (d.is_luks && d.is_unlocked && d.luks_opened_by_us)
        (λ _. bind (luks_close-Umounted path d.dm_name) (λ closed.
          branch closed (λ _. seq (save-Umounted path _) (λ _. returns _ (λ w v. v)))
            (λ _. returns d (λ w v. v))))
        (λ _. returns d (λ w v. v))

  detached-Umounted :
      (d : Device) (before : List Event) (b : Bool)
      → os.umounts before d.mount_point ≡ b
      → Triple
          (λ w. w.log ≡ before)
          (detached os d b)
          (λ _ w. Umounted os d.mount_point w.log)
          Anything
  unfolding detached record_event save
  detached-Umounted d before true e = record {
    run = λ w v. record {
      before = before;
      after = rmdir d.mount_point ∷ [];
      answered = e;
      split = ap (λ l. rmdir d.mount_point ∷ umount d.mount_point true ∷ l) v;
    };
  }
  detached-Umounted d before false e = record { run = λ w v. tt }

  tracked-found :
      (p : Str) (ds : List Device)
      → Triple (λ w. w.devices ≡ ds) (tracked p) (λ d w. find_device p ds ≡ some d) Anything
  unfolding tracked
  tracked-found p ds = record {
    run = λ w e. elim (Option-cases (find_device p w.devices)) [
      | inl h ↦ rw (h, tracked) tt
      | inr (d, h) ↦ let found : find_device p ds ≡ some d = rw (← e) h in rw (h, tracked) found
    ];
  }

  pub do_unmount-Umounted :
      (p : Str) (ds : List Device)
      → Triple (λ w. w.devices ≡ ds) (do_unmount os p) (λ _ w. UmountCalled os p ds w.log) Anything
  unfolding do_unmount detach
  do_unmount-Umounted p ds = bind (tracked-found p ds) (λ d.
      seq (required d.is_mounted _ (λ w h. tt)) (λ _. record {
        run = λ w h.
            (weaken
                (bind (detached-Umounted d w.log (os.umounts w.log d.mount_point) refl)
                  (close_idle-Umounted d.mount_point))
                (λ e u m. (d.mount_point, ground (arith, h.0, h.1), m)) (λ u m. m)).run
              w refl;
      }))

  pub expel-EjectCalled :
      (p : Str) {P : World → Type 0}
      → Triple P (expel os p) (λ _ w. EjectCalled os p w.log) Anything
  unfolding expel
  expel-EjectCalled p = record { run = λ w v. ground arith }

  pub do_eject-EjectCalled :
      (p : Str) → Triple Anything (do_eject os p) (λ _ w. EjectCalled os p w.log) Anything
  unfolding do_eject
  do_eject-EjectCalled p = bind (anything (tracked p)) (λ dev.
      bind (anything (if dev.is_mounted then do_unmount os p else pure dev)) (λ idle.
        seq (anything (close_idle os idle))
          (λ _. seq (expel-EjectCalled p) (λ _. record { run = λ w v. v }))))
