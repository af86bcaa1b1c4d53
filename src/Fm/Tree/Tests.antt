-- ===== src/Fm/Tree/Tests.antt =====
-- A directory /a with a file and a link, and a kernel where every call succeeds, or rmdir fails.
use isde.Common.{
  suc, ◌≡◌, refl, Bool, true, false, not, ◌&&◌, ◌||◌, List, [], ◌∷◌, ◌++◌, Option, none, some, Str,
  str_eq, codes, length, leb, if◌then◌else◌, arith,
}
use isde.Fm.Trash.{path_max}
use isde.Fm.Tree.{
  FileOp, lstat, opendir, readlink, read, mkdir, symlink, create, write, unlink, rmdir, called, Log,
  Kernel, Kind, directory, link, other, bytes, for_entries, delete_dir, delete_kind, delete_level,
  delete_recursive, copy_chunks, copy_file, copy_dir, copy_kind, copy_level, copy_recursive,
  fileops_copy, free_name, first_name, asked,
}
use isde.Fm.Tree.Works.{Works}
use isde.Fm.Tree.Delete.{deletes}
use isde.Fm.Tree.Last.{has_removed}
use isde.Fm.Tree.Copy.{HasNames}
use isde.Fm.Tree.Depth.{RefusesLong}
use isde.Fm.Tree.Stands.{
  leaf, dir, Entries, end, entry, height, names, removal, all_gone, Stands, StandIn,
}
use isde.Fm.Tree.Gone.{delete_recursive-removal}
use isde.Fm.Tree.Total.{copies_to, delete_recursive-Deletes, fileops_copy-Copies}
use isde.Fm.Tree.Names.{Place}

abbrev kind_at : Str → Option Kind
kind_at path =
    if leb path_max (length path)
    then none
    else if str_eq path (codes "/a")
    then some directory
    else if str_eq path (codes "/a/f")
    then some other
    else if str_eq path (codes "/a/l")
    then some link
    else none

abbrev names_in : Str → Option (List Str)
names_in path =
    if str_eq path (codes "/a") then some (codes "." ∷ codes "f" ∷ codes "l" ∷ []) else none

abbrev is_rmdir : FileOp → Bool
is_rmdir rmdir = true
is_rmdir _ = false

abbrev kernel : (busy : Bool) → Kernel
kernel busy = record {
  kind_of = λ log path. kind_at path;
  entries = λ log path. names_in path;
  link_target = λ log path. some (codes "f");
  contents = λ log path. some (bytes true ∷ []);
  succeeds = λ log op path. not (busy && is_rmdir op);
  flag = λ log. false;
}

kernel-RefusesLong : (busy : Bool) → RefusesLong (kernel busy)
kernel-RefusesLong busy log path h = ground arith

kernel-HasNames : (busy : Bool) → HasNames (kernel busy)
kernel-HasNames busy log path names e = ground (arith, e)

-- The names without "." and what is deleted, last first.
delete_recursive_a :
    delete_recursive (kernel false) false 2 (codes "/a") []
    ≡ some (
      true,
      called rmdir (codes "/a") true
          ∷ called unlink (codes "/a/l") true
          ∷ called lstat (codes "/a/l") true
          ∷ called unlink (codes "/a/f") true
          ∷ called lstat (codes "/a/f") true
          ∷ called opendir (codes "/a") true
          ∷ called lstat (codes "/a") true
          ∷ [],
    )
unfolding delete_recursive delete_level delete_kind delete_dir for_entries str_eq
delete_recursive_a = refl

fileops_copy_a :
    fileops_copy (kernel false) false 2 (codes "/a") (codes "/c") []
    ≡ some (
      true,
      called symlink (codes "/c/l") true
          ∷ asked (codes "/c/l") false
          ∷ called readlink (codes "/a/l") true
          ∷ called lstat (codes "/a/l") true
          ∷ asked (codes "/c/l") false
          ∷ called write (codes "/c/f") true
          ∷ called read (codes "/a/f") true
          ∷ called create (codes "/c/f") true
          ∷ called lstat (codes "/a/f") true
          ∷ asked (codes "/c/f") false
          ∷ called opendir (codes "/a") true
          ∷ called mkdir (codes "/c") true
          ∷ called lstat (codes "/a") true
          ∷ asked (codes "/c") false
          ∷ [],
    )
unfolding fileops_copy copy_recursive copy_level copy_kind copy_dir copy_file copy_chunks
    for_entries str_eq free_name first_name
fileops_copy_a = refl

delete_recursive-Deletes_example :
    (r : Bool × Log) × (delete_recursive (kernel true) true (suc path_max) (codes "/a") [] ≡ some r)
    × Works (deletes (codes "/a")) true [] r
    × ((not r.0 || has_removed (codes "/a") r.1) ≡ true)
delete_recursive-Deletes_example =
    delete_recursive-Deletes (kernel true) true (codes "/a") [] (kernel-RefusesLong true)

fileops_copy-Copies_example :
    (r : Bool × Log) × (fileops_copy (kernel false) true (suc path_max) (codes "/a") (codes "/c") []
      ≡ some r)
    × Works
        (copies_to (codes "/a") (codes "/c") (free_name (kernel false) true (codes "/c") []).0)
        true
        []
        r
    × Place (codes "/c") (free_name (kernel false) true (codes "/c") []).0
fileops_copy-Copies_example =
    fileops_copy-Copies (kernel false) true (codes "/a") (codes "/c") [] (kernel-RefusesLong false)
      (kernel-HasNames false)

-- What stands at /a, on a kernel that removes only an empty directory.
abbrev entries_a : Entries
entries_a = entry (codes "f") (leaf false) (entry (codes "l") (leaf true) end)

abbrev strict : Kernel
strict = record (kernel false) {
  succeeds = λ log op path. not (is_rmdir op) || all_gone (codes "/a") entries_a log;
}

strict-Stands : Stands strict (codes "/a") (dir entries_a)
unfolding Stands StandIn names str_eq
strict-Stands = (
  (λ log u. refl),
  (codes "." ∷ codes "f" ∷ codes "l" ∷ [], (λ log u. refl), refl),
  (λ log h. h),
  (
    refl,
    refl,
    refl,
    ((λ log u. refl), (λ log u. refl)),
    (refl, refl, refl, ((λ log u. refl), (λ log u. refl)), tt),
  ),
)

delete_recursive-removal_example :
    delete_recursive strict true 2 (codes "/a") []
    ≡ some (true, removal (codes "/a") (dir entries_a) ++ [])
delete_recursive-removal_example =
    delete_recursive-removal strict true 2 (codes "/a") (dir entries_a) [] (λ l. refl) strict-Stands
      refl (unfold height in omega arith)
