-- ===== src/Mountd/Monitor/New.antt =====
-- The entry that udev's device brings: what `mountd_add_device` and `setup_luks_fields` make of it.
use isde.Common.{
  ◌≡◌, refl, ◌∙◌, ◌<◌, Bool, true, false, List, Option, none, some, Str, if◌then◌else◌, [], length,
  codes,
}
use isde.Mountd.Device.{Device, dev_path_len, max_devices}
use isde.Mountd.Table.{find_device, add_device, push_back, set_back}
use isde.Mountd.Table.Add.{fresh, fresh-dev_path, add-inv, set_back-push_back}
use isde.Mountd.Udev.{
  UdevDevice, setup_luks_fields, get_fs_type, get_label, or_empty, get_vendor_model, is_ejectable,
  is_given, is_text,
}
use isde.Mountd.Monitor.{track}

-- The kernel's device nodes fit DEV_PATH_LEN.
abbrev pub FitsNode : Option Str → Type 0
FitsNode none = Unit {0}
FitsNode (some p) = length p < dev_path_len

-- What `setup_luks_fields` leaves of an entry.
record SameRest (d e : Device) : Type 0 where
  dev_path : e.dev_path ≡ d.dev_path
  mount_point : e.mount_point ≡ d.mount_point
  is_mounted : e.is_mounted ≡ d.is_mounted
  is_unlocked : e.is_unlocked ≡ d.is_unlocked
  luks_opened_by_us : e.luks_opened_by_us ≡ d.luks_opened_by_us

SameRest-if :
    {d : Device} (b : Bool) (x y : Device)
    → SameRest d x
    → SameRest d y
    → SameRest d (if b then x else y)
SameRest-if true x y h k = h
SameRest-if false x y h k = k

setup_luks_fields-SameRest :
    (d : Device) (dev : UdevDevice) (p : Str) → SameRest d (setup_luks_fields d dev p)
unfolding setup_luks_fields
setup_luks_fields-SameRest d dev p =
    SameRest-if (is_given (dev.property (codes "ID_FS_UUID"))) _ _
      (record {
        dev_path = refl;
        mount_point = refl;
        is_mounted = refl;
        is_unlocked = refl;
        luks_opened_by_us = refl;
      })
      (record {
        dev_path = refl;
        mount_point = refl;
        is_mounted = refl;
        is_unlocked = refl;
        luks_opened_by_us = refl;
      })

-- A new entry e at the end of the table.
pub record NewEntry (p : Str) (ds : List Device) (e : Device) (es : List Device) : Type 0 where
  pub pushed : es ≡ push_back e ds
  pub dev_path : e.dev_path ≡ p
  pub mount_point : e.mount_point ≡ []
  pub is_mounted : e.is_mounted ≡ false
  pub is_unlocked : e.is_unlocked ≡ false
  pub not_ours : e.luks_opened_by_us ≡ false
  pub untracked : find_device p ds ≡ none
  pub room : length ds < max_devices

abbrev pub IsNew : Str → List Device → Option (Device × List Device) → Type 0
IsNew p ds none = Unit {0}
IsNew p ds (some (e, es)) = NewEntry p ds e es

IsNew-if :
    (p : Str) (ds : List Device) (b : Bool) (x y : Option (Device × List Device))
    → IsNew p ds x
    → IsNew p ds y
    → IsNew p ds (if b then x else y)
IsNew-if p ds true x y h k = h
IsNew-if p ds false x y h k = k

module _ (p label vendor fs_type : Str) (ejectable : Bool) (ds : List Device)
    (fits : length p < dev_path_len) where
  added-NewEntry :
      (x : Device) (es : List Device)
      → add_device p label vendor fs_type ejectable ds ≡ some (x, es)
      → NewEntry p ds x es
  unfolding fresh
  added-NewEntry x es h =
      let i = add-inv p label vendor fs_type ejectable ds fits h in
      record {
        pushed = rw (i.0, i.1);
        dev_path = rw i.0 (fresh-dev_path p label vendor fs_type ejectable ds fits);
        mount_point = rw i.0;
        is_mounted = rw i.0;
        is_unlocked = rw i.0;
        not_ours = rw i.0;
        untracked = i.2;
        room = i.3;
      }

-- A new entry that keeps what `add_device` wrote of path and flags.
SameRest-NewEntry :
    (p : Str) (ds : List Device) (x e : Device) (es : List Device)
    → NewEntry p ds x es
    → SameRest x e
    → NewEntry p ds e (set_back e es)
SameRest-NewEntry p ds x e es n s = record {
  pushed = rw n.pushed (set_back-push_back e x ds);
  dev_path = s.dev_path ∙ n.dev_path;
  mount_point = s.mount_point ∙ n.mount_point;
  is_mounted = s.is_mounted ∙ n.is_mounted;
  is_unlocked = s.is_unlocked ∙ n.is_unlocked;
  not_ours = s.luks_opened_by_us ∙ n.not_ours;
  untracked = n.untracked;
  room = n.room;
}

pub track-IsNew :
    (dev : UdevDevice) (p : Str) (ds : List Device)
    → length p < dev_path_len
    → IsNew p ds (track dev p ds)
unfolding track
track-IsNew dev p ds fits = go (add_device p label vendor fs ejectable ds) refl
  where
    label : Str
    label = or_empty (get_label dev)

    vendor : Str
    vendor = get_vendor_model dev

    fs : Str
    fs = or_empty (get_fs_type dev)

    ejectable : Bool
    ejectable = is_ejectable dev

    go :
        (r : Option (Device × List Device))
        → add_device p label vendor fs ejectable ds ≡ r
        → IsNew p ds (track dev p ds)
    go none e = rw (e, track) tt
    go (some (x, es)) e =
        let n = added-NewEntry p label vendor fs ejectable ds fits x es e in
        rw (e, track)
          (IsNew-if p ds (is_text (get_fs_type dev) (codes "crypto_LUKS")) _ _
            (SameRest-NewEntry p ds x _ es n (setup_luks_fields-SameRest x dev p)) n)
