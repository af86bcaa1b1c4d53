-- ===== src/Mountd/Mount/Effect.antt =====
-- What mount, unmount and eject do to the table of devices.
use isde.Common.{
  ap, ℕ, ◌≡◌, refl, Bool, true, false, List, [], ◌∷◌, Option, none, some, Str, ◌&&◌, is_empty,
}
use isde.Mountd.Device.{Device}
use isde.Mountd.Table.Valid.{IsConsistent, Held, Held-store, Held-IsConsistent}
use isde.Mountd.World.{
  MountCall, mount, rmdir, Os, World, Event, mount_failed, save, ◌>>=◌, ◌>>◌, record_event,
}
use isde.Mountd.World.Triple.{Triple, bind, seq, branch, returns, fails}
use isde.Mountd.Mount.{
  unlock, check_fs, attached, attach, detached, mount_at, resolved, close_idle, target_of,
  source_of,
}
use isde.Mountd.Mount.Called.{LastMount}
use isde.Mountd.Mount.Reads.{luks_close-total, mkdir_p-Reads, event-Reads}
use isde.Mountd.Mount.Ready.{
  Has, Unmounted, reads, save-Held, close_ours-Unmounted, guarded, unlock-Ready, check_fs-Ready,
}

target_of-nonempty : (base user label : Str) → is_empty (target_of base user label) ≡ false
target_of-nonempty [] user label = refl
target_of-nonempty (c ∷ base) user label = refl

module _ (os : Os) (p : Str) (ds : List Device) where
  -- A successful mount: the entry is mounted where the caller is told, and mount(2) was the last call.
  abbrev pub Mounted : Str → World → Type 0
  Mounted mp w =
      (d : Device) × Held p ds d w.devices
      × (d.is_mounted ≡ true)
      × (d.mount_point ≡ mp)
      × LastMount os (source_of d) mp w.log

  attached-Mounted :
      (d : Device) (call : MountCall) (before : List Event) (b : Bool)
      → os.mounts before call ≡ b
      → call.source ≡ source_of d
      → d.is_mounted ≡ false
      → IsConsistent d
      → is_empty call.target ≡ false
      → Triple
          (λ w. Has os p ds d w × (w.log ≡ before))
          (attached os d call b)
          Mounted
          (Unmounted os p ds)
  unfolding attached record_event save
  attached-Mounted d call before true e same off c h = record {
    run = λ w v. (
      record d { is_mounted = true; mount_point = call.target },
      Held-store v.0 (record d { is_mounted = true; mount_point = call.target }) refl
          (record { mount_point = h; ours_unlocked = c.ours_unlocked }),
      refl,
      refl,
      record {
        before = before;
        call = call;
        answered = e;
        same_source = same;
        same_target = refl;
        last_call = ap (λ l. mount call true ∷ l) v.1;
      },
    );
  }
  attached-Mounted d call before false e same off c h = record {
    run = λ w v.
        (seq (reads os p ds d (event-Reads os (mount call false)) off) (λ _.
            seq (reads os p ds d (event-Reads os (rmdir call.target)) off) (λ _.
              seq (close_ours-Unmounted os p ds d off c) (λ _. fails mount_failed (λ w v. v))))).run
          w v.0;
  }

  mount_at-Mounted :
      (d : Device) (uid gid : ℕ) (target : Str)
      → d.is_mounted ≡ false
      → IsConsistent d
      → is_empty target ≡ false
      → Triple (Has os p ds d) (mount_at os d uid gid target) Mounted (Unmounted os p ds)
  unfolding mount_at attach
  mount_at-Mounted d uid gid target off c h =
      bind (reads os p ds d (mkdir_p-Reads os target) off) (λ created.
        seq (guarded os p ds d created _ off) (λ _. record {
          run = λ w v.
              (attached-Mounted d _ w.log (os.mounts w.log _) refl refl off c h).run w (v, refl);
        }))

  resolved-Mounted :
      (d : Device) (uid : ℕ) (user : Option (Str × ℕ))
      → d.is_mounted ≡ false
      → IsConsistent d
      → Triple (Has os p ds d) (resolved os d uid user) Mounted (Unmounted os p ds)
  unfolding resolved
  resolved-Mounted d uid none off c = fails _ (λ w v. (d, v, off))
  resolved-Mounted d uid (some (user, gid)) off c = record {
    run = λ w.
        (mount_at-Mounted d uid gid (target_of w.mount_base user d.label) off c
            (target_of-nonempty w.mount_base user d.label)).run
          w;
  }

  -- From a table with an unmounted entry d for p.
  pub mount-Mounted :
      (d : Device) (uid : ℕ) (passphrase : Str)
      → d.is_mounted ≡ false
      → IsConsistent d
      → Triple
          (Has os p ds d)
          (unlock os d passphrase >>= λ ready.
            check_fs os ready >> (λ w. resolved os ready uid (os.passwd w.log uid) w))
          Mounted
          (Unmounted os p ds)
  mount-Mounted d uid passphrase off c = bind (unlock-Ready os p ds d passphrase off c) (λ e.
      record {
        run = λ w v.
            (seq (check_fs-Ready os p ds e v.1 (Held-IsConsistent v.0)) (λ _. record {
              run = λ u.
                  (resolved-Mounted e uid (os.passwd u.log uid) v.1 (Held-IsConsistent v.0)).run u;
            })).run
              w v.0;
      })

  pub closed-Held :
      (d : Device)
      → IsConsistent d
      → Triple
          (Has os p ds d)
          (close_idle os d)
          (λ e w. Held p ds e w.devices × (e.is_mounted ≡ d.is_mounted))
          (λ _. ⊥)
  unfolding close_idle
  closed-Held d c =
      branch (d.is_luks && d.is_unlocked && d.luks_opened_by_us)
        (λ _. bind (luks_close-total os d.dm_name (λ es. Held p ds d es)) (λ closed.
          branch closed
            (λ _.
              seq
                (save-Held os p ds d e (λ _. ⊥) refl
                  (record { mount_point = c.mount_point; ours_unlocked = refl }))
                (λ _. returns e (λ w v. (v, refl))))
            (λ _. returns d (λ w v. (v, refl)))))
        (λ _. returns d (λ w v. (v, refl)))
    where
      e : Device
      e = record d { is_unlocked = false; luks_opened_by_us = false; inner_fs_type = [] }

  -- Nothing of the table is written.
  abbrev pub Same : World → Type 0
  Same w = w.devices ≡ ds

  pub detached-Held :
      (d : Device) (b : Bool)
      → IsConsistent d
      → Triple
          (λ w. Held p ds d w.devices × (w.devices ≡ ds))
          (detached os d b)
          (λ e w. Held p ds e w.devices × (e.is_mounted ≡ false))
          Same
  unfolding detached record_event save
  detached-Held d true c = record {
    run = λ w v. (
      Held-store v.0 (record d { is_mounted = false; mount_point = [] }) refl
          (record { mount_point = refl; ours_unlocked = c.ours_unlocked }),
      refl,
    );
  }
  detached-Held d false c = record { run = λ w v. v.1 }
