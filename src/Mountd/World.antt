-- ===== src/Mountd/World.antt =====
-- What the handlers of isde-mountd run on: the daemon's state, a log of the calls that reach the
-- kernel, libcryptsetup and D-Bus, and the answers of those as a parameter. An answer may depend on
-- all that was called before.
pub mod Triple
use isde.Common.{ℕ, Bool, true, false, List, [], ◌∷◌, Option, none, some, Str, if◌then◌else◌}
use isde.Mountd.Device.{Device, MountDaemon}
use isde.Mountd.Table.{find_device, store_device}

-- The arguments of mount(2): the flags that the daemon sets, and the FAT ownership options.
pub record MountCall : Type 0 where
  pub source : Str
  pub target : Str
  pub fs : Str
  pub nosuid : Bool
  pub nodev : Bool
  pub relatime : Bool
  pub noexec : Bool
  pub owner : Option (ℕ × ℕ)

-- The signals of dbus.c.
pub data Signal : Type 0 where
  device_added : Str → Str → Str → Signal
  device_removed : Str → Signal
  device_mounted : Str → Str → Signal
  device_unmounted : Str → Signal

-- A call that left the daemon; the flag says whether it succeeded.
pub data Event : Type 0 where
  activate : (dev dm : Str) → Bool → Event
  deactivate : (dm : Str) → Bool → Event
  mkdir : Str → Bool → Event
  rmdir : Str → Event
  mount : MountCall → Bool → Event
  umount : Str → Bool → Event
  eject : Str → Bool → Event
  emit : Signal → Event

-- How `crypt_activate_by_passphrase` ends: r >= 0, r == -1, any other r < 0.
pub data Activation : Type 0 where
  activated wrong_passphrase failed : Activation

-- How mkdir(2) ends: 0, EEXIST, any other error.
pub data Made : Type 0 where
  made exists not_made : Made

-- The answers of what is not part of the daemon.
pub record Os : Type 0 where
  pub crypt_init : List Event → Str → Bool
  pub crypt_load : List Event → Str → Bool
  pub crypt_activate : List Event → (dev dm passphrase : Str) → Activation
  pub crypt_init_by_name : List Event → Str → Bool
  pub crypt_deactivate : List Event → Str → Bool
  pub crypt_is_active : List Event → Str → Bool
  pub new_probe : List Event → Str → Bool
  pub safe_probe : List Event → Str → Bool
  pub probed_type : List Event → Str → Option Str
  pub passwd : List Event → ℕ → Option (Str × ℕ)
  pub make_dir : List Event → Str → Made
  pub mounts : List Event → MountCall → Bool
  pub umounts : List Event → Str → Bool
  pub ejects : List Event → Str → Bool

pub record World : Type 0 where
  pub md : MountDaemon
  pub open md use *
  pub log : List Event

-- The messages of mount_ops.c and luks.c.
pub data Error : Type 0 where
  not_tracked : Str → Error
  already_mounted : Str → Error
  passphrase_required no_dm_name unknown_inner_fs unknown_fs : Error
  not_allowed : Str → Error
  unresolved_uid : ℕ → Error
  cannot_create : Str → Error
  mount_failed not_mounted umount_failed : Error
  eject_failed : Str → Error
  crypt_init_error crypt_load_error bad_passphrase crypt_activate_error : Error

pub data Result {ℓ} (A : Type ℓ) : Type ℓ where
  ok : A → Result A
  err : Error → Result A

-- A handler: `return -1` keeps what was written before it.
abbrev pub M : Type 0 → Type 0
M A = World → Result A × World

abbrev pub pure : {A : Type 0} → A → M A
pure a w = (ok a, w)

abbrev pub throw : {A : Type 0} → Error → M A
throw e w = (err e, w)

module _ {A B : Type 0} where
  abbrev pub and_then : Result A × World → (A → M B) → Result B × World
  and_then (ok a, w) k = k a w
  and_then (err e, w) k = (err e, w)

  infixl 5 ◌>>=◌ ◌>>◌
  abbrev pub ◌>>=◌ : M A → (A → M B) → M B
  m >>= k = λ w. and_then (m w) k

  abbrev pub ◌>>◌ : M A → M B → M B
  m >> n = m >>= λ _. n

-- `if (!test) { return -1; }`
unfoldable pub require : Bool → Error → M (Unit {0})
require true e = pure tt
require false e = throw e

unfoldable pub record_event : Event → M (Unit {0})
record_event e w = (ok tt, record w { log = e ∷ w.log })

abbrev pub set_devices : List Device → World → World
set_devices ds w = record w { md = record (w.md) { devices = ds } }

-- The writes through the `Device *` of this entry.
unfoldable pub save : Device → M (Unit {0})
save d w = (ok tt, set_devices (store_device d w.devices) w)

-- The lookup at the head of each handler.
unfoldable pub tracked : Str → M Device
tracked p w = elim (find_device p w.devices) [
  | none ↦ (err (not_tracked p), w)
  | some d ↦ (ok d, w)
]

-- `mountd_dbus_emit_*`: nothing is sent without a bus.
unfoldable pub emits : Signal → World → World
emits s w = if w.dbus then record w { log = emit s ∷ w.log } else w
