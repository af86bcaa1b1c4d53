-- ===== src/Mountd/Refresh/Valid.antt =====
-- What `mountd_refresh_mount_state` leaves of a table in which nothing was opened yet.
use isde.Common.{
  ◌≡◌, refl, Bool, true, false, not, ◌&&◌, List, [], ◌∷◌, map, Option, none, some, Str, arith,
  is_empty, str_eq, if◌then◌else◌, length, fit,
}
use isde.Mountd.Device.{Device, mount_point_len}
use isde.Mountd.Table.{find_device}
use isde.Mountd.Table.Laws.{Distinct, IsTable, store-IsTable}
use isde.Mountd.Table.Each.{All, All-store, All-find}
use isde.Mountd.Table.Valid.{IsConsistent, IsValid}
use isde.Mountd.Refresh.{
  cleared, mounted_on, mark_mapped, mark_line, mark_lines, refresh_mount_state,
}

-- Entries of containers that the daemon did not open, whose mount flags agree.
record IsFresh (d : Device) : Type 0 where
  not_ours : d.luks_opened_by_us ≡ false
  mount_point : is_empty d.mount_point ≡ not d.is_mounted

abbrev pub NotOurs : Device → Type 0
NotOurs d = d.luks_opened_by_us ≡ false

IsFresh-IsConsistent : (ds : List Device) → All IsFresh ds → All IsConsistent ds
IsFresh-IsConsistent [] v = tt
IsFresh-IsConsistent (d ∷ ds) v = (
  record { mount_point = v.0.mount_point; ours_unlocked = ground (arith, v.0.not_ours) },
  IsFresh-IsConsistent ds v.1,
)

-- Two tables with the same paths in the same order.
abbrev Aligned : List Device → List Device → Type 0
Aligned [] [] = Unit {0}
Aligned [] (e ∷ es) = ⊥
Aligned (d ∷ ds) [] = ⊥
Aligned (d ∷ ds) (e ∷ es) = (e.dev_path ≡ d.dev_path) × Aligned ds es

Aligned-refl : (ds : List Device) → Aligned ds ds
Aligned-refl [] = tt
Aligned-refl (d ∷ ds) = (refl, Aligned-refl ds)

Aligned-find :
    (p : Str) (ds es : List Device)
    → Aligned ds es
    → find_device p ds ≡ none
    → find_device p es ≡ none
unfolding find_device
Aligned-find p [] [] a h = h
Aligned-find p [] (e ∷ es) a h = absurd a
Aligned-find p (d ∷ ds) [] a h = absurd a
Aligned-find p (d ∷ ds) (e ∷ es) a h = ground (arith, Aligned-find p ds es a.1, a.0)

Aligned-Distinct : (ds es : List Device) → Aligned ds es → Distinct ds → Distinct es
Aligned-Distinct [] [] a v = v
Aligned-Distinct [] (e ∷ es) a v = absurd a
Aligned-Distinct (d ∷ ds) [] a v = absurd a
Aligned-Distinct (d ∷ ds) (e ∷ es) a v =
    (rw a.0 (Aligned-find d.dev_path ds es a.1 v.0), Aligned-Distinct ds es a.1 v.1)

Aligned-length : (ds es : List Device) → Aligned ds es → length es ≡ length ds
Aligned-length [] [] a = refl
Aligned-length [] (e ∷ es) a = absurd a
Aligned-length (d ∷ ds) [] a = absurd a
Aligned-length (d ∷ ds) (e ∷ es) a = ground (arith, Aligned-length ds es a.1)

Aligned-IsTable : (ds es : List Device) → Aligned ds es → IsTable ds → IsTable es
Aligned-IsTable ds es a v = record {
  distinct = Aligned-Distinct ds es a v.distinct;
  bounded = ground (arith, Aligned-length ds es a, v.bounded);
}

cleared-Aligned : (active : Str → Bool) (ds : List Device) → Aligned ds (map (cleared active) ds)
unfolding cleared
cleared-Aligned active [] = tt
cleared-Aligned active (d ∷ ds) = (ground arith, cleared-Aligned active ds)

cleared-IsFresh :
    (active : Str → Bool) (ds : List Device)
    → All NotOurs ds
    → All IsFresh (map (cleared active) ds)
unfolding cleared
cleared-IsFresh active [] v = tt
cleared-IsFresh active (d ∷ ds) v = (ground (arith, v.0), cleared-IsFresh active ds v.1)

mark_mapped-Aligned : (dev mp : Str) (ds : List Device) → Aligned ds (mark_mapped dev mp ds)
unfolding mark_mapped mounted_on
mark_mapped-Aligned dev mp [] = tt
mark_mapped-Aligned dev mp (d ∷ ds) = ground (arith, mark_mapped-Aligned dev mp ds, Aligned-refl ds)

-- The tokens of a line of /proc/mounts are not empty.
abbrev pub Named : List (Str × Str) → Type 0
Named [] = Unit {0}
Named (l ∷ ls) = (is_empty l.1 ≡ false) × Named ls

fit-nonempty : (s : Str) → is_empty s ≡ false → is_empty (fit mount_point_len s) ≡ false
fit-nonempty [] h = h
fit-nonempty (c ∷ s) h = refl

mounted_on-IsFresh :
    (mp : Str) (d : Device) → is_empty mp ≡ false → IsFresh d → IsFresh (mounted_on mp d)
unfolding mounted_on
mounted_on-IsFresh mp d h v = record { not_ours = v.not_ours; mount_point = fit-nonempty mp h }

mark_mapped-IsFresh :
    (dev mp : Str) (ds : List Device)
    → is_empty mp ≡ false
    → All IsFresh ds
    → All IsFresh (mark_mapped dev mp ds)
unfolding mark_mapped
mark_mapped-IsFresh dev mp [] h v = tt
mark_mapped-IsFresh dev mp (d ∷ ds) h v =
    marked (d.is_luks && not (is_empty d.dm_path) && str_eq d.dm_path dev) (mounted_on mp d ∷ ds)
      (d ∷ mark_mapped dev mp ds) (mounted_on-IsFresh mp d h v.0, v.1)
      (v.0, mark_mapped-IsFresh dev mp ds h v.1)
  where
    marked :
        (b : Bool) (xs ys : List Device)
        → All IsFresh xs
        → All IsFresh ys
        → All IsFresh (if b then xs else ys)
    marked true xs ys h k = h
    marked false xs ys h k = k

record Refreshed (ds : List Device) : Type 0 where
  table : IsTable ds
  fresh : All IsFresh ds

mark_line-Refreshed :
    (dev mp : Str) (ds : List Device)
    → is_empty mp ≡ false
    → Refreshed ds
    → Refreshed (mark_line (dev, mp) ds)
unfolding mark_line
mark_line-Refreshed dev mp ds h v = go (find_device dev ds) refl
  where
    go : (o : Option Device) → find_device dev ds ≡ o → Refreshed (mark_line (dev, mp) ds)
    go none e =
        rw (e, mark_line)
          (record {
            table = Aligned-IsTable ds _ (mark_mapped-Aligned dev mp ds) v.table;
            fresh = mark_mapped-IsFresh dev mp ds h v.fresh;
          })
    go (some d) e =
        rw (e, mark_line)
          (record {
            table = store-IsTable (mounted_on mp d) ds v.table;
            fresh =
                All-store IsFresh (mounted_on mp d) ds
                  (mounted_on-IsFresh mp d h (All-find IsFresh dev ds d v.fresh e)) v.fresh;
          })

mark_lines-Refreshed :
    (ls : List (Str × Str)) (ds : List Device)
    → Named ls
    → Refreshed ds
    → Refreshed (mark_lines ls ds)
unfolding mark_lines
mark_lines-Refreshed [] ds n v = v
mark_lines-Refreshed (l ∷ ls) ds n v =
    mark_lines-Refreshed ls (mark_line l ds) n.1 (mark_line-Refreshed l.0 l.1 ds n.0 v)

-- After a refresh at the start the flags of every entry agree with its mount point.
pub refresh-IsValid :
    (active : Str → Bool) (ls : List (Str × Str)) (ds : List Device)
    → Named ls
    → IsTable ds
    → All NotOurs ds
    → IsValid (refresh_mount_state active ls ds)
unfolding refresh_mount_state
refresh-IsValid active ls ds n t f =
    let r = mark_lines-Refreshed ls (map (cleared active) ds) n (record {
      table = Aligned-IsTable ds _ (cleared-Aligned active ds) t;
      fresh = cleared-IsFresh active ds f;
    }) in
    record { table = r.table; consistent = IsFresh-IsConsistent _ r.fresh }
