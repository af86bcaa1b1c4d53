-- ===== src/Mountd/Mount/Ready.antt =====
-- The stages of `mountd_do_mount` up to the mount: the entry they leave is unmounted, in the table, and
-- the only one that they touch.
use isde.Common.{◌≡◌, refl, Bool, true, false, List, Option, none, some, Str, ◌&&◌, is_empty}
use isde.Mountd.Device.{Device}
use isde.Mountd.Table.Valid.{IsConsistent, Held, Held-store, Held-IsConsistent}
use isde.Mountd.Label.{is_fs_type_allowed}
use isde.Mountd.World.{Os, World, M, pure, save, Error, require, ◌>>◌}
use isde.Mountd.World.Triple.{Triple, bind, seq, branch, returns, fails, required, weaken}
use isde.Mountd.Mount.{close_ours, open_container, probed, probe_container, unlock, check_fs, fs_of}
use isde.Mountd.Mount.Reads.{Reads, luks_open-Reads, luks_close-Reads}

module _ (os : Os) (p : Str) (ds : List Device) where
  -- The entry of p is d; nothing else differs from `ds`.
  abbrev pub Has : Device → World → Type 0
  Has d w = Held p ds d w.devices

  -- A failed mount: the entry is still there, not mounted; nothing else differs.
  abbrev pub Unmounted : World → Type 0
  Unmounted w = (d : Device) × Held p ds d w.devices × (d.is_mounted ≡ false)

  pub reads :
      {A : Type 0} {m : M A} (d : Device)
      → Reads m
      → d.is_mounted ≡ false
      → Triple (Has d) m (λ _. Has d) Unmounted
  reads d t off = weaken (t (λ es. Held p ds d es)) (λ a w v. v) (λ w v. (d, v, off))

  pub save-Held :
      (d e : Device) (R : World → Type 0)
      → e.dev_path ≡ d.dev_path
      → IsConsistent e
      → Triple (Has d) (save e) (λ _. Has e) R
  unfolding save
  save-Held d e R same c = record { run = λ w v. Held-store v e same c }

  pub close_ours-Unmounted :
      (d : Device)
      → d.is_mounted ≡ false
      → IsConsistent d
      → Triple (Has d) (close_ours os d) (λ _. Unmounted) Unmounted
  unfolding close_ours
  close_ours-Unmounted d off c =
      branch (d.is_luks && d.luks_opened_by_us)
        (λ _. seq (reads d (luks_close-Reads os d.dm_name) off) (λ _.
          weaken
            (save-Held d (record d { is_unlocked = false; luks_opened_by_us = false }) Unmounted
              refl (record { mount_point = c.mount_point; ours_unlocked = refl }))
            (λ a w v. (_, v, off)) (λ w v. v)))
        (λ _. returns tt (λ w v. (d, v, off)))

  -- The entry as a stage of `do_mount` leaves it.
  abbrev pub Ready : Device → World → Type 0
  Ready e w = Held p ds e w.devices × (e.is_mounted ≡ false)

  pub ready : (e : Device) → e.is_mounted ≡ false → Triple (Has e) (pure e) Ready Unmounted
  ready e off = returns e (λ w v. (v, off))

  -- A write of the entry, and the entry that was written.
  pub save_ready :
      (d e : Device)
      → e.is_mounted ≡ false
      → e.dev_path ≡ d.dev_path
      → IsConsistent e
      → Triple (Has d) (save e >> pure e) Ready Unmounted
  save_ready d e off same c = seq (save-Held d e Unmounted same c) (λ _. ready e off)

  pub open_container-Ready :
      (d : Device) (passphrase : Str)
      → d.is_mounted ≡ false
      → IsConsistent d
      → Triple (Has d) (open_container os d passphrase) Ready Unmounted
  unfolding open_container
  open_container-Ready d passphrase off c =
      branch d.is_unlocked (λ _. ready d off)
        (λ _. seq (reads d (luks_open-Reads os d.dev_path d.dm_name passphrase) off) (λ _.
          save_ready d (record d { is_unlocked = true; luks_opened_by_us = true }) off refl
            (record { mount_point = c.mount_point; ours_unlocked = refl })))

  pub probed-Ready :
      (d : Device) (t : Option Str)
      → d.is_mounted ≡ false
      → IsConsistent d
      → Triple (Has d) (probed os d t) Ready Unmounted
  unfolding probed
  probed-Ready d none off c = seq (close_ours-Unmounted d off c) (λ _. fails _ (λ w v. v))
  probed-Ready d (some t) off c = save_ready d (record d { inner_fs_type = t }) off refl c'
    where
      c' : IsConsistent (record d { inner_fs_type = t })
      c' = record { mount_point = c.mount_point; ours_unlocked = c.ours_unlocked }

  pub probe_container-Ready : (d : Device) → Triple (Ready d) (probe_container os d) Ready Unmounted
  unfolding probe_container
  probe_container-Ready d =
      branch (is_empty d.inner_fs_type)
        (λ _. record { run = λ w v. (probed-Ready d _ v.1 (Held-IsConsistent v.0)).run w v.0 })
        (λ _. returns d (λ w v. v))

  pub guarded :
      (d : Device) (b : Bool) (e : Error)
      → d.is_mounted ≡ false
      → Triple (Has d) (require b e) (λ _. Has d) Unmounted
  guarded d b e off = weaken (required b e (λ w v. v)) (λ a w v. v.1) (λ w v. (d, v, off))

  pub unlock-Ready :
      (d : Device) (passphrase : Str)
      → d.is_mounted ≡ false
      → IsConsistent d
      → Triple (Has d) (unlock os d passphrase) Ready Unmounted
  unfolding unlock
  unlock-Ready d passphrase off c =
      branch d.is_luks
        (λ _. seq (guarded d _ _ off) (λ _.
          seq (guarded d _ _ off)
            (λ _. bind (open_container-Ready d passphrase off c) probe_container-Ready)))
        (λ _. ready d off)

  pub check_fs-Ready :
      (d : Device)
      → d.is_mounted ≡ false
      → IsConsistent d
      → Triple (Has d) (check_fs os d) (λ _. Has d) Unmounted
  unfolding check_fs
  check_fs-Ready d off c = seq (guarded d _ _ off) (λ _.
      branch (is_fs_type_allowed (fs_of d)) (λ _. returns tt (λ w v. v))
        (λ _. seq (close_ours-Unmounted d off c) (λ _. fails _ (λ w v. v))))
