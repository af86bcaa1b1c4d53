-- ===== src/Mountd/Table/Laws.antt =====
-- The laws of the device table (mountd/src/devices.c).
use isde.Common.{
  suc, ◌≤◌, ◌≡◌, refl, sym, ap, ◌∙◌, false, List, [], ◌∷◌, none, some, arith, Str, str_eq,
  str_eq_iff, length, if◌then◌else◌, ◌&&◌, is_some,
}
use isde.Mountd.Device.{Device, max_devices}
use isde.Mountd.Table.{find_device, remove_device, push_back, store_device, last, butlast, fill_gap}

-- No two entries have one path.
abbrev pub Distinct : List Device → Type 0
Distinct [] = Unit {0}
Distinct (d ∷ ds) = (find_device d.dev_path ds ≡ none) × Distinct ds

-- Every table that the daemon reaches.
pub record IsTable (ds : List Device) : Type 0 where
  pub distinct : Distinct ds
  pub bounded : length ds ≤ max_devices

pub find-push_back :
    (q : Str) (e : Device) (ds : List Device)
    → find_device q ds ≡ none
    → find_device q (push_back e ds) ≡ (if str_eq e.dev_path q then some e else none)
unfolding find_device
find-push_back q e [] h = refl
find-push_back q e (d ∷ ds) h = ground (arith, find-push_back q e ds)

pub find-push_back-some :
    (q : Str) (e d : Device) (ds : List Device)
    → find_device q ds ≡ some d
    → find_device q (push_back e ds) ≡ some d
unfolding find_device
find-push_back-some q e d [] h = cc
find-push_back-some q e d (x ∷ ds) h = ground (arith, find-push_back-some q e d ds)

pub push_back-Distinct :
    (e : Device) (ds : List Device)
    → Distinct ds
    → find_device e.dev_path ds ≡ none
    → Distinct (push_back e ds)
unfolding find_device
push_back-Distinct e [] v h = ground arith
push_back-Distinct e (d ∷ ds) v h = ground (
  arith,
  push_back-Distinct e ds v.1,
  find-push_back d.dev_path e ds,
  str_eq_iff e.dev_path d.dev_path,
  str_eq_iff d.dev_path e.dev_path,
)

find-push_back-none :
    (q : Str) (e : Device) (ds : List Device)
    → find_device q (push_back e ds) ≡ none
    → (find_device q ds ≡ none) × (str_eq e.dev_path q ≡ false)
unfolding find_device
find-push_back-none q e [] h = ground arith
find-push_back-none q e (d ∷ ds) h = ground (arith, find-push_back-none q e ds)

-- The converse, by which the last entry can be taken off again.
Distinct-push_back :
    (e : Device) (ds : List Device)
    → Distinct (push_back e ds)
    → Distinct ds × (find_device e.dev_path ds ≡ none)
unfolding find_device
Distinct-push_back e [] v = ground arith
Distinct-push_back e (d ∷ ds) v = ground (
  arith,
  Distinct-push_back e ds v.1,
  find-push_back-none d.dev_path e ds v.0,
  str_eq_iff e.dev_path d.dev_path,
  str_eq_iff d.dev_path e.dev_path,
)

push_back-butlast : (d : Device) (ds : List Device) → push_back (last d ds) (butlast d ds) ≡ d ∷ ds
push_back-butlast d [] = refl
push_back-butlast d (e ∷ ds) = ap (◌∷◌ d) (push_back-butlast e ds)

pub length-push_back : (e : Device) (ds : List Device) → length (push_back e ds) ≡ suc (length ds)
length-push_back e [] = refl
length-push_back e (d ∷ ds) = ap suc (length-push_back e ds)

fill_gap-Distinct : (ds : List Device) → Distinct ds → Distinct (fill_gap ds)
unfolding fill_gap
fill_gap-Distinct [] v = tt
fill_gap-Distinct (d ∷ ds) v =
    let w = Distinct-push_back (last d ds) (butlast d ds) (rw (push_back-butlast d ds) v) in
    (w.1, w.0)

length-fill_gap : (ds : List Device) → length (fill_gap ds) ≡ length ds
unfolding fill_gap
length-fill_gap [] = refl
length-fill_gap (d ∷ ds) =
    sym (length-push_back (last d ds) (butlast d ds)) ∙ ap length (push_back-butlast d ds)

-- Moving the last entry to the front changes no lookup.
find-front :
    (q : Str) (e : Device) (ds : List Device)
    → find_device e.dev_path ds ≡ none
    → find_device q (e ∷ ds) ≡ find_device q (push_back e ds)
unfolding find_device
find-front q e [] h = refl
find-front q e (d ∷ ds) h = ground (
  arith,
  find-front q e ds,
  str_eq_iff e.dev_path q,
  str_eq_iff d.dev_path q,
  str_eq_iff d.dev_path e.dev_path,
)

find-fill_gap :
    (q : Str) (ds : List Device) → Distinct ds → find_device q (fill_gap ds) ≡ find_device q ds
unfolding fill_gap
find-fill_gap q [] v = refl
find-fill_gap q (d ∷ ds) v =
    find-front q (last d ds) (butlast d ds)
      (Distinct-push_back (last d ds) (butlast d ds) (rw (push_back-butlast d ds) v)).1
    ∙ ap (find_device q) (push_back-butlast d ds)

find_none-remove :
    (q p : Str) (ds : List Device)
    → Distinct ds
    → find_device q ds ≡ none
    → find_device q (remove_device p ds) ≡ none
unfolding remove_device find_device
find_none-remove q p [] v h = refl
find_none-remove q p (d ∷ ds) v h =
    ground (arith, find-fill_gap q ds v.1, find_none-remove q p ds v.1)

remove-Distinct : (p : Str) (ds : List Device) → Distinct ds → Distinct (remove_device p ds)
unfolding remove_device
remove-Distinct p [] v = tt
remove-Distinct p (d ∷ ds) v = ground (
  arith,
  fill_gap-Distinct ds v.1,
  remove-Distinct p ds v.1,
  find_none-remove d.dev_path p ds v.1,
)

-- From a table with distinct paths, `mountd_remove_device` takes exactly the entry of its path, although
-- it moves the last entry into the gap: the path finds nothing, and every other path finds what it found.
pub find-remove :
    (q p : Str) (ds : List Device)
    → Distinct ds
    → find_device q (remove_device p ds) ≡ (if str_eq p q then none else find_device q ds)
unfolding remove_device find_device
find-remove q p [] v = ground arith
find-remove q p (d ∷ ds) v = ground (
  arith,
  find-fill_gap q ds v.1,
  find-remove q p ds v.1,
  str_eq_iff d.dev_path p,
  str_eq_iff d.dev_path q,
  str_eq_iff p q,
)

length-remove : (p : Str) (ds : List Device) → length (remove_device p ds) ≤ length ds
unfolding remove_device
length-remove p [] = omega arith
length-remove p (d ∷ ds) = ground (arith, length-fill_gap ds, length-remove p ds)

pub remove-IsTable : (p : Str) (ds : List Device) → IsTable ds → IsTable (remove_device p ds)
remove-IsTable p ds v = record {
  distinct = remove-Distinct p ds v.distinct;
  bounded = omega (arith, length-remove p ds, v.bounded);
}

pub find-dev_path :
    (p : Str) (ds : List Device) (d : Device) → find_device p ds ≡ some d → d.dev_path ≡ p
unfolding find_device
find-dev_path p [] d h = cc
find-dev_path p (x ∷ ds) d h = ground (arith, find-dev_path p ds d, str_eq_iff x.dev_path p)

-- What a lookup finds after a write through the `Device *` of an entry.
pub find-store :
    (q : Str) (e : Device) (ds : List Device)
    → find_device q (store_device e ds)
      ≡ (if str_eq e.dev_path q && is_some (find_device q ds) then some e else find_device q ds)
unfolding store_device find_device
find-store q e [] = ground arith
find-store q e (d ∷ ds) = ground (
  arith,
  find-store q e ds,
  str_eq_iff d.dev_path e.dev_path,
  str_eq_iff d.dev_path q,
  str_eq_iff e.dev_path q,
)

store-Distinct : (e : Device) (ds : List Device) → Distinct ds → Distinct (store_device e ds)
unfolding store_device
store-Distinct e [] v = tt
store-Distinct e (d ∷ ds) v =
    ground
      (arith, store-Distinct e ds v.1, find-store d.dev_path e ds, str_eq_iff d.dev_path e.dev_path)

length-store : (e : Device) (ds : List Device) → length (store_device e ds) ≡ length ds
unfolding store_device
length-store e [] = refl
length-store e (d ∷ ds) = ground (arith, length-store e ds)

pub store-IsTable : (e : Device) (ds : List Device) → IsTable ds → IsTable (store_device e ds)
store-IsTable e ds v = record {
  distinct = store-Distinct e ds v.distinct;
  bounded = omega (arith, length-store e ds, v.bounded);
}
