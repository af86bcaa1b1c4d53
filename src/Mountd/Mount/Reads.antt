-- ===== src/Mountd/Mount/Reads.antt =====
-- The parts of mount_ops.c and luks.c that never write the table of devices.
use isde.Common.{◌++◌, true, false, List, [], ◌∷◌, arith, Str, ◌==◌}
use isde.Mountd.Device.{Device}
use isde.Mountd.World.{Event, Os, M, record_event}
use isde.Mountd.World.Triple.{Triple, bind, branch, returns}
use isde.Mountd.Luks.{luks_open, luks_close}
use isde.Mountd.Mount.{make_one, make_dirs, mkdir_p, expel}

-- A handler that never writes the table.
abbrev pub Reads : {A : Type 0} → M A → Type 1
Reads {A} m =
    (P : List Device → Type 0) → Triple (λ w. P w.devices) m (λ _ w. P w.devices) (λ w. P w.devices)

module _ (os : Os) where
  pub luks_open-Reads : (dev dm passphrase : Str) → Reads (luks_open os dev dm passphrase)
  unfolding luks_open
  luks_open-Reads dev dm passphrase P = record { run = λ w v. ground arith }

  pub luks_close-Reads : (dm : Str) → Reads (luks_close os dm)
  unfolding luks_close
  luks_close-Reads dm P = record { run = λ w v. ground arith }

  -- Closing never fails as a handler: its outcome is a value.
  pub luks_close-total :
      (dm : Str) (P : List Device → Type 0)
      → Triple (λ w. P w.devices) (luks_close os dm) (λ _ w. P w.devices) (λ _. ⊥)
  unfolding luks_close
  luks_close-total dm P = record { run = λ w v. ground arith }

  pub make_one-Reads : (path : Str) → Reads (make_one os path)
  unfolding make_one
  make_one-Reads path P = record { run = λ w v. ground arith }

  pub make_dirs-Reads : (front rest : Str) → Reads (make_dirs os front rest)
  unfolding make_dirs
  make_dirs-Reads front [] P = make_one-Reads front P
  make_dirs-Reads front (c ∷ s) P =
      bind (branch (c == b'/') (λ _. make_one-Reads front P) (λ _. returns true (λ w v. v)))
        (λ made_it.
          branch made_it (λ _. make_dirs-Reads (front ++ c ∷ []) s P)
            (λ _. returns false (λ w v. v)))

  pub mkdir_p-Reads : (path : Str) → Reads (mkdir_p os path)
  unfolding mkdir_p
  mkdir_p-Reads [] = make_dirs-Reads [] []
  mkdir_p-Reads (c ∷ s) = make_dirs-Reads (c ∷ []) s

  pub event-Reads : (e : Event) → Reads (record_event e)
  unfolding record_event
  event-Reads e P = record { run = λ w v. v }

  pub expel-Reads : (p : Str) → Reads (expel os p)
  unfolding expel
  expel-Reads p P = record { run = λ w v. ground arith }
