-- ===== src/Mountd/Mount/Safety.antt =====
-- What reaches mount(2): no request, label or passphrase makes the daemon mount with suid or device
-- files allowed, an unlisted filesystem, or a target outside <mount_base>/<user>/<one name>.
use isde.Common.{
  ℕ, ◌≡◌, refl, ◌++◌, Bool, true, false, List, [], ◌∷◌, Option, none, some, arith, Str, fit, ◌==◌,
  ◌&&◌, is_empty,
}
use isde.Mountd.Device.{Device, mount_point_len}
use isde.Mountd.Label.{is_fs_type_allowed, sanitize_label}
use isde.Mountd.Label.Safety.{IsComponent, sanitize_label-IsComponent}
use isde.Mountd.World.{
  MountCall, Event, mount, rmdir, Os, World, M, save, tracked, Error, require, record_event,
}
use isde.Mountd.World.Triple.{Triple, bind, seq, branch, returns, fails}
use isde.Mountd.Luks.{luks_open, luks_close}
use isde.Mountd.Mount.{
  make_one, make_dirs, mkdir_p, close_ours, open_container, probed, probe_container, unlock,
  check_fs, attached, attach, detached, mount_at, resolved, do_mount, close_idle, detach,
  do_unmount, expel, do_eject, is_fat, mount_call, target_of, fs_of, source_of,
}

-- A target that the daemon may mount on: the user's name is what getpwuid(3) answered for a uid.
pub record IsTarget (os : Os) (base target : Str) : Type 0 where
  pub calls : List Event
  pub uid : ℕ
  pub gid : ℕ
  pub user : Str
  pub known : os.passwd calls uid ≡ some (user, gid)
  pub name : Str
  pub component : IsComponent name
  pub path : target ≡ fit mount_point_len (base ++ b'/' ∷ (user ++ b'/' ∷ name))

pub record IsSafeCall (os : Os) (base : Str) (c : MountCall) : Type 0 where
  pub nosuid : c.nosuid ≡ true
  pub nodev : c.nodev ≡ true
  pub fat_noexec : c.noexec ≡ is_fat c.fs
  pub allowed : is_fs_type_allowed c.fs ≡ true
  pub target : IsTarget os base c.target

abbrev pub IsSafeEvent : Os → Str → Event → Type 0
IsSafeEvent os base (mount c b) = IsSafeCall os base c
IsSafeEvent os base _ = Unit {0}

abbrev pub IsSafeLog : Os → Str → List Event → Type 0
IsSafeLog os base [] = Unit {0}
IsSafeLog os base (e ∷ es) = IsSafeEvent os base e × IsSafeLog os base es

pub record IsSafe (os : Os) (base : Str) (w : World) : Type 0 where
  pub mount_base : w.mount_base ≡ base
  pub safe_log : IsSafeLog os base w.log

abbrev pub Keeps : {A : Type 0} → Os → Str → M A → Type 0
Keeps os base m = Triple (IsSafe os base) m (λ _. IsSafe os base) (IsSafe os base)

target_of-IsTarget :
    (os : Os) (base user label : Str) (calls : List Event) (uid gid : ℕ)
    → os.passwd calls uid ≡ some (user, gid)
    → IsTarget os base (target_of base user label)
target_of-IsTarget os base user label calls uid gid e = record {
  calls = calls;
  uid = uid;
  gid = gid;
  user = user;
  known = e;
  name = sanitize_label 255 label;
  component = (sanitize_label-IsComponent 255 label (omega arith)).0;
  path = refl;
}

module _ (os : Os) (base : Str) where
  save-IsSafe : (d : Device) → Keeps os base (save d)
  unfolding save
  save-IsSafe d = record { run = λ w v. ground arith }

  event-IsSafe : (e : Event) → IsSafeEvent os base e → Keeps os base (record_event e)
  unfolding record_event
  event-IsSafe e h = record {
    run = λ w v. record { mount_base = v.mount_base; safe_log = (h, v.safe_log) };
  }

  tracked-IsSafe : (p : Str) → Keeps os base (tracked p)
  unfolding tracked
  tracked-IsSafe p = record { run = λ w v. ground arith }

  luks_open-IsSafe : (dev dm passphrase : Str) → Keeps os base (luks_open os dev dm passphrase)
  unfolding luks_open
  luks_open-IsSafe dev dm passphrase = record { run = λ w v. ground arith }

  pub luks_close-IsSafe : (dm : Str) → Keeps os base (luks_close os dm)
  unfolding luks_close
  luks_close-IsSafe dm = record { run = λ w v. ground arith }

  make_one-IsSafe : (path : Str) → Keeps os base (make_one os path)
  unfolding make_one
  make_one-IsSafe path = record { run = λ w v. ground arith }

  make_dirs-IsSafe : (front rest : Str) → Keeps os base (make_dirs os front rest)
  unfolding make_dirs
  make_dirs-IsSafe front [] = make_one-IsSafe front
  make_dirs-IsSafe front (c ∷ s) =
      bind (branch (c == b'/') (λ _. make_one-IsSafe front) (λ _. returns true (λ w v. v)))
        (λ made_it.
          branch made_it (λ _. make_dirs-IsSafe (front ++ c ∷ []) s)
            (λ _. returns false (λ w v. v)))

  mkdir_p-IsSafe : (path : Str) → Keeps os base (mkdir_p os path)
  unfolding mkdir_p
  mkdir_p-IsSafe [] = make_dirs-IsSafe [] []
  mkdir_p-IsSafe (c ∷ s) = make_dirs-IsSafe (c ∷ []) s

  close_ours-IsSafe : (d : Device) → Keeps os base (close_ours os d)
  unfolding close_ours
  close_ours-IsSafe d =
      branch (d.is_luks && d.luks_opened_by_us)
        (λ _. seq (luks_close-IsSafe d.dm_name) (λ _. save-IsSafe _)) (λ _. returns tt (λ w v. v))

  open_container-IsSafe :
      (d : Device) (passphrase : Str) → Keeps os base (open_container os d passphrase)
  unfolding open_container
  open_container-IsSafe d passphrase =
      branch d.is_unlocked (λ _. returns d (λ w v. v))
        (λ _.
          seq (luks_open-IsSafe d.dev_path d.dm_name passphrase)
            (λ _. seq (save-IsSafe _) (λ _. returns _ (λ w v. v))))

  probed-IsSafe : (d : Device) (t : Option Str) → Keeps os base (probed os d t)
  unfolding probed
  probed-IsSafe d none = seq (close_ours-IsSafe d) (λ _. fails _ (λ w v. v))
  probed-IsSafe d (some t) = seq (save-IsSafe _) (λ _. returns _ (λ w v. v))

  probe_container-IsSafe : (d : Device) → Keeps os base (probe_container os d)
  unfolding probe_container
  probe_container-IsSafe d =
      branch (is_empty d.inner_fs_type) (λ _. record { run = λ w v. (probed-IsSafe d _).run w v })
        (λ _. returns d (λ w v. v))

  guarded-IsSafe : (b : Bool) (e : Error) → Keeps os base (require b e)
  unfolding require
  guarded-IsSafe true e = returns tt (λ w v. v)
  guarded-IsSafe false e = fails e (λ w v. v)

  unlock-IsSafe : (d : Device) (passphrase : Str) → Keeps os base (unlock os d passphrase)
  unfolding unlock
  unlock-IsSafe d passphrase =
      branch d.is_luks
        (λ _. seq (guarded-IsSafe _ _) (λ _.
          seq (guarded-IsSafe _ _)
            (λ _. bind (open_container-IsSafe d passphrase) probe_container-IsSafe)))
        (λ _. returns d (λ w v. v))

  -- Past this check the filesystem is one of the allowed ones.
  check_fs-allowed :
      (d : Device)
      → Triple
          (IsSafe os base)
          (check_fs os d)
          (λ _ w. (is_fs_type_allowed (fs_of d) ≡ true) × IsSafe os base w)
          (IsSafe os base)
  unfolding check_fs
  check_fs-allowed d = seq (guarded-IsSafe _ _) (λ _.
      branch (is_fs_type_allowed (fs_of d)) (λ e. returns tt (λ w v. (e, v)))
        (λ _. seq (close_ours-IsSafe d) (λ _. fails _ (λ w v. v))))

  attached-IsSafe :
      (d : Device) (c : MountCall) (b : Bool)
      → IsSafeCall os base c
      → Keeps os base (attached os d c b)
  unfolding attached
  attached-IsSafe d c true h =
      seq (event-IsSafe (mount c true) h) (λ _. seq (save-IsSafe _) (λ _. returns _ (λ w v. v)))
  attached-IsSafe d c false h = seq (event-IsSafe (mount c false) h) (λ _.
      seq (event-IsSafe (rmdir c.target) tt)
        (λ _. seq (close_ours-IsSafe d) (λ _. fails _ (λ w v. v))))

  attach-IsSafe :
      (d : Device) (c : MountCall) → IsSafeCall os base c → Keeps os base (attach os d c)
  unfolding attach
  attach-IsSafe d c h = record { run = λ w. (attached-IsSafe d c (os.mounts w.log c) h).run w }

  mount_at-IsSafe :
      (d : Device) (uid gid : ℕ) (target : Str)
      → is_fs_type_allowed (fs_of d) ≡ true
      → IsTarget os base target
      → Keeps os base (mount_at os d uid gid target)
  unfolding mount_at
  mount_at-IsSafe d uid gid target h t = bind (mkdir_p-IsSafe target) (λ created.
      seq (guarded-IsSafe created _) (λ _.
        attach-IsSafe d (mount_call (source_of d) target (fs_of d) uid gid)
          (record { nosuid = refl; nodev = refl; fat_noexec = refl; allowed = h; target = t })))

  resolved-IsSafe :
      (d : Device) (uid : ℕ) (calls : List Event) (user : Option (Str × ℕ))
      → os.passwd calls uid ≡ user
      → is_fs_type_allowed (fs_of d) ≡ true
      → Keeps os base (resolved os d uid user)
  unfolding resolved
  resolved-IsSafe d uid calls none e h = fails _ (λ w v. v)
  resolved-IsSafe d uid calls (some (user, gid)) e h = record {
    run = λ w v.
        (mount_at-IsSafe d uid gid (target_of w.mount_base user d.label) h
            (rw v.mount_base (target_of-IsTarget os base user d.label calls uid gid e))).run
          w v;
  }

  pub do_mount-IsSafe :
      (p : Str) (uid : ℕ) (passphrase : Str) → Keeps os base (do_mount os p uid passphrase)
  unfolding do_mount
  do_mount-IsSafe p uid passphrase = bind (tracked-IsSafe p) (λ dev. seq (guarded-IsSafe _ _) (λ _.
      bind (unlock-IsSafe dev passphrase) (λ ready. seq (check_fs-allowed ready) (λ _. record {
        run = λ w h. (resolved-IsSafe ready uid w.log (os.passwd w.log uid) refl h.0).run w h.1;
      }))))

  close_idle-IsSafe : (d : Device) → Keeps os base (close_idle os d)
  unfolding close_idle
  close_idle-IsSafe d =
      branch (d.is_luks && d.is_unlocked && d.luks_opened_by_us)
        (λ _. bind (luks_close-IsSafe d.dm_name) (λ closed.
          branch closed (λ _. seq (save-IsSafe _) (λ _. returns _ (λ w v. v)))
            (λ _. returns d (λ w v. v))))
        (λ _. returns d (λ w v. v))

  detach-IsSafe : (d : Device) → Keeps os base (detach os d)
  unfolding detach detached save record_event
  detach-IsSafe d = record { run = λ w v. ground arith }

  pub do_unmount-IsSafe : (p : Str) → Keeps os base (do_unmount os p)
  unfolding do_unmount
  do_unmount-IsSafe p =
      bind (tracked-IsSafe p)
        (λ dev. seq (guarded-IsSafe _ _) (λ _. bind (detach-IsSafe dev) close_idle-IsSafe))

  expel-IsSafe : (p : Str) → Keeps os base (expel os p)
  unfolding expel
  expel-IsSafe p = record { run = λ w v. ground arith }

  pub do_eject-IsSafe : (p : Str) → Keeps os base (do_eject os p)
  unfolding do_eject
  do_eject-IsSafe p = bind (tracked-IsSafe p) (λ dev.
      bind (branch dev.is_mounted (λ _. do_unmount-IsSafe p) (λ _. returns dev (λ w v. v))) (λ idle.
        seq (close_idle-IsSafe idle)
          (λ _. seq (expel-IsSafe p) (λ _. record { run = λ w v. ground arith }))))
