-- ===== src/Fm/Tree/Total.antt =====
-- Deleting and copying a tree end, and what they leave.
use isde.Common.{suc, ◌≡◌, refl, Bool, true, not, ◌||◌, arith, some, is_some, Str}
use isde.Fm.Trash.{path_max}
use isde.Fm.Tree.{Event, Log, Kernel, Result, free_name, delete_recursive, fileops_copy}
use isde.Fm.Tree.Works.{Works, Works-le, WorksIn, WorksIn-le, WorksIn-trans, deep, worked}
use isde.Fm.Tree.Names.{Place, looks, free_name-Named}
use isde.Fm.Tree.Delete.{deletes, delete_recursive-WorksIn}
use isde.Fm.Tree.Copy.{HasNames, copies, copy_recursive-WorksIn}
use isde.Fm.Tree.Last.{has_removed, delete_recursive-has_removed}
use isde.Fm.Tree.Depth.{RefusesLong, delete_recursive-ends, fileops_copy-ends}

-- A result is there, and it is what the calls that were added make of it.
abbrev Leaves : (allowed : Event → Bool) (log : Log) → Result → Type 0
Leaves allowed log o = (r : Bool × Log) × (o ≡ some r) × Works allowed true log r

leaves :
    (allowed : Event → Bool) (log : Log) {o : Result}
    → is_some o ≡ true
    → WorksIn allowed true log o
    → Leaves allowed log o
leaves allowed log e deep = cc
leaves allowed log e (worked {r} w) = (r, refl, w)

-- A directory is never more than 4096 levels below the one that is deleted when lstat(2) refuses a path of PATH_MAX
-- bytes. Whatever the kernel answers and whenever the flag is set, a deletion then returns. It adds calls to those
-- before it, all of them of lstat, opendir, unlink and rmdir, on the path itself and on paths below it, and returns 0
-- exactly when all these calls succeed and the flag was never read as set. When it returns 0, the last call has removed
-- the path itself.
pub delete_recursive-Deletes :
    (k : Kernel) (cb : Bool) (path : Str) (log : Log)
    → RefusesLong k
    → (r : Bool × Log) × (delete_recursive k cb (suc path_max) path log ≡ some r)
      × Works (deletes path) true log r
      × ((not r.0 || has_removed path r.1) ≡ true)
delete_recursive-Deletes k cb path log refuses =
    let (r, e, w) =
      leaves (deletes path) log (delete_recursive-ends k cb refuses path log)
        (delete_recursive-WorksIn k cb (suc path_max) path log) in
    (r, e, w, delete_recursive-has_removed k cb path_max path log r e)

-- What a copy to a path may do, where it makes its copy under the name `named`.
abbrev pub copies_to : (src dst named : Str) → Event → Bool
copies_to src dst named e = copies src named e || looks dst e

-- When lstat(2) refuses a path of PATH_MAX bytes and no entry of a directory has a '/' in its name, a copy returns,
-- whatever else the kernel answers and whenever the flag is set. It takes for the destination its path or a numbered
-- name. It adds calls to those before it: lstat, opendir, readlink and reads at or below the source; the calls that make
-- or remove something at or below that name; links in the directory of that name; and, to find free names, lstat of
-- names in the directory of the destination or of that name, and below that name. It returns 0 exactly when all these
-- calls but those that ask for a free name succeed and the flag was never read as set.
pub fileops_copy-Copies :
    (k : Kernel) (cb : Bool) (src dst : Str) (log : Log)
    → RefusesLong k
    → HasNames k
    → (r : Bool × Log) × (fileops_copy k cb (suc path_max) src dst log ≡ some r)
      × Works (copies_to src dst (free_name k cb dst log).0) true log r
      × Place dst (free_name k cb dst log).0
unfolding fileops_copy
fileops_copy-Copies k cb src dst log refuses proper =
    let free = free_name k cb dst log in
    let (looked, place) = free_name-Named k cb dst log in
    let allowed = copies_to src dst free.0 in
    let copied =
      WorksIn-le (copies src free.0) allowed true free.1 (λ e. ground arith)
        (copy_recursive-WorksIn k cb proper (suc path_max) src free.0 free.1) in
    let first = Works-le (looks dst) allowed true log (true, free.1) (λ e. ground arith) looked in
    let (r, e, w) =
      leaves allowed log (fileops_copy-ends k cb refuses src dst log)
        (WorksIn-trans allowed true log (true, free.1) first copied) in
    (r, e, w, place)
