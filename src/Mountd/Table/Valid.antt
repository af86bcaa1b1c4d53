-- ===== src/Mountd/Table/Valid.antt =====
-- The table's invariant, and what an operation on one entry leaves of it.
use isde.Common.{◌≡◌, refl, false, not, ◌&&◌, List, some, arith, Str, str_eq, str_eq_iff, is_empty}
use isde.Mountd.Device.{Device}
use isde.Mountd.Table.{find_device, store_device}
use isde.Mountd.Table.Laws.{IsTable, find-store, store-IsTable, find-dev_path}
use isde.Mountd.Table.Each.{All, All-store, All-find}

-- The flags and the strings of one entry agree.
pub record IsConsistent (d : Device) : Type 0 where
  pub mount_point : is_empty d.mount_point ≡ not d.is_mounted
  pub ours_unlocked : (d.luks_opened_by_us && not d.is_unlocked) ≡ false

pub record IsValid (ds : List Device) : Type 0 where
  pub table : IsTable ds
  pub consistent : All IsConsistent ds

-- `es` is `ds` but for the entry of p, which is now d.
pub record Held (p : Str) (ds : List Device) (d : Device) (es : List Device) : Type 0 where
  pub found : find_device p es ≡ some d
  pub others : (q : Str) → str_eq p q ≡ false → find_device q es ≡ find_device q ds
  pub valid : IsValid es

module _ {p : Str} {ds : List Device} where
  pub Held-start : {d : Device} → IsValid ds → find_device p ds ≡ some d → Held p ds d ds
  Held-start v found = record { found = found; others = λ q h. refl; valid = v }

  module _ {d : Device} {es : List Device} (v : Held p ds d es) where
    pub Held-dev_path : d.dev_path ≡ p
    Held-dev_path = find-dev_path p es d v.found

    pub Held-IsConsistent : IsConsistent d
    Held-IsConsistent = All-find IsConsistent p es d v.valid.consistent v.found

    pub Held-store :
        (e : Device) → e.dev_path ≡ d.dev_path → IsConsistent e → Held p ds e (store_device e es)
    Held-store e same c = record {
      found =
          ground (arith, find-store p e es, v.found, str_eq_iff e.dev_path p, Held-dev_path, same);
      others = λ q h.
          ground
            (arith, find-store q e es, v.others q h, Held-dev_path, same, str_eq_iff e.dev_path p);
      valid = record {
        table = store-IsTable e es v.valid.table;
        consistent = All-store IsConsistent e es c v.valid.consistent;
      };
    }
