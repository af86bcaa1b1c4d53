-- ===== src/Mountd/Table.antt =====
-- mountd/src/devices.c: the table of tracked devices. A `Device *` into the table is the first entry
-- with its path, which is never written while the entry is tracked: `store_device` is a write through it.
pub mod Laws
pub mod Add
pub mod Each
pub mod Valid
use isde.Common.{
  ℕ, ◌-◌, Bool, List, [], ◌∷◌, Option, none, some, Str, str_eq, fit, length, leb, if◌then◌else◌,
}
use isde.Mountd.Device.{
  Device, zeroed, max_devices, dev_path_len, label_len, vendor_len, fs_type_len,
}

-- `mountd_find_device`
unfoldable pub find_device : Str → List Device → Option Device
find_device p [] = none
find_device p (d ∷ ds) = if str_eq d.dev_path p then some d else find_device p ds

-- The assignments through a `Device *` that `find_device` returned.
unfoldable pub store_device : Device → List Device → List Device
store_device e [] = []
store_device e (d ∷ ds) = if str_eq d.dev_path e.dev_path then e ∷ ds else d ∷ store_device e ds

abbrev pub new_device : Str → Str → Str → Str → Bool → Device
new_device p label vendor fs_type ejectable = record zeroed {
  dev_path = fit dev_path_len p;
  label = fit label_len label;
  vendor = fit vendor_len vendor;
  fs_type = fit fs_type_len fs_type;
  is_ejectable = ejectable;
}

abbrev pub push_back : Device → List Device → List Device
push_back e [] = e ∷ []
push_back e (d ∷ ds) = d ∷ push_back e ds

-- The assignments through the `Device *` of the entry that was just added.
unfoldable pub set_back : Device → List Device → List Device
set_back e [] = []
set_back e (d ∷ []) = e ∷ []
set_back e (d ∷ c ∷ ds) = d ∷ set_back e (c ∷ ds)

-- `mountd_add_device`: the new entry and the table, or none and the table as it was.
unfoldable pub add_device :
    Str → Str → Str → Str → Bool → List Device → Option (Device × List Device)
add_device p label vendor fs_type ejectable ds = elim (find_device p ds) [
  | some d ↦ none
  | none ↦
      if leb max_devices (length ds)
      then none
      else some (
        new_device p label vendor fs_type ejectable,
        push_back (new_device p label vendor fs_type ejectable) ds,
      )
]

abbrev pub last : Device → List Device → Device
last d [] = d
last d (e ∷ r) = last e r

abbrev pub butlast : Device → List Device → List Device
butlast d [] = []
butlast d (e ∷ r) = d ∷ butlast e r

-- What stands in the place of the entry that goes: the last entry moves there, if there is one.
unfoldable pub fill_gap : List Device → List Device
fill_gap [] = []
fill_gap (d ∷ ds) = last d ds ∷ butlast d ds

-- `mountd_remove_device`
unfoldable pub remove_device : Str → List Device → List Device
remove_device p [] = []
remove_device p (d ∷ ds) = if str_eq d.dev_path p then fill_gap ds else d ∷ remove_device p ds
