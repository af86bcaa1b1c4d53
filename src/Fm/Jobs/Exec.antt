-- ===== src/Fm/Jobs/Exec.antt =====
-- The execution of a job by the worker thread, over the file operations of fm/src/fileops.c and rename(2), which
-- are arguments.
pub mod Sources
use isde.Common.{
  ℕ, suc, ◌+◌, ◌==◌, Bool, true, false, not, ◌&&◌, List, [], ◌∷◌, ◌++◌, Str, str_eq, length,
  if◌then◌else◌,
}
use isde.Common.Distinct.{mem}
use isde.Fm.Jobs.{JobType, copy, move, delete, trash, empty_trash, Job}

-- What a file operation returns, the errno that it leaves, and what it adds to the count of files.
pub record Answer : Type 0 where
  pub failed : Bool
  pub errno : ℕ
  pub counted : ℕ

-- The file operations on a file system W.
pub record FileOps (W : Type 0) : Type 0 where
  pub count_files : Str → W → ℕ
  pub copy_progress : (src dst : Str) → W → Answer × W
  pub rename : (src dst : Str) → W → Answer × W
  pub delete_path : Str → W → Answer × W
  pub delete_progress : Str → W → Answer × W
  pub trash_path : Str → W → Answer × W
  pub empty_all : W → Answer × W

-- EXDEV
abbrev pub exdev : ℕ
exdev = 18

-- The part behind the last '/'.
abbrev pub base_of : Str → Str
base_of [] = []
base_of (c ∷ s) = let rest = base_of s in if mem 47 s then rest else if c == 47 then s else c ∷ s

abbrev pub dest_of : Job → Str → Str
dest_of j src = j.dst_dir ++ 47 ∷ base_of src

-- if (ret != 0 && job->error == 0) job->error = errno
abbrev pub noted : Answer → Job → Job
noted a j = if a.failed && (j.error == 0) then record j { error = a.errno } else j

abbrev pub add_done : ℕ → Job → Job
add_done n j = record j { files_done = j.files_done + n }

module _ {W : Type 0} (ops : FileOps W) (cancelled_at : ℕ → Bool) where
  abbrev pub count_all : List Str → W → ℕ
  count_all [] w = 0
  count_all (src ∷ srcs) w = ops.count_files src w + count_all srcs w

  -- The loop over the sources. The flag that main thread sets is read before each: `cancelled_at i` is what
  -- the load before the source i gives.
  abbrev pub for_sources : (ℕ → Str → Job → W → Job × W) → ℕ → List Str → Job → W → Job × W
  for_sources body i [] j w = (j, w)
  for_sources body i (src ∷ srcs) j w =
      let (j', w') = body i src j w in
      let rest = for_sources body (suc i) srcs j' w' in if cancelled_at i then (j, w) else rest

  abbrev pub copy_one : ℕ → Str → Job → W → Job × W
  copy_one i src j w =
      let (a, w') = ops.copy_progress src (dest_of j src) w in (noted a (add_done a.counted j), w')

  unfoldable pub exec_copy : Job → W → Job × W
  exec_copy j w =
      for_sources copy_one 0 j.src_paths (record j { files_total = count_all j.src_paths w }) w

  -- rename(2) failed: across devices the source is copied and deleted.
  abbrev pub move_across : Answer → Str → Job → W → Job × W
  move_across a src j w =
      if a.errno == exdev
      then (let (b, w') = ops.copy_progress src (dest_of j src) w in
          (noted b (add_done b.counted j), if b.failed then w' else (ops.delete_path src w').1))
      else (noted a j, w)

  abbrev pub move_one : ℕ → Str → Job → W → Job × W
  move_one i src j w =
      if str_eq src (dest_of j src)
      then (add_done (ops.count_files src w) j, w)
      else (let (a, w') = ops.rename src (dest_of j src) w in
          if a.failed
          then move_across a src j w'
          else (add_done (ops.count_files (dest_of j src) w') j, w'))

  unfoldable pub exec_move : Job → W → Job × W
  exec_move j w =
      for_sources move_one 0 j.src_paths (record j { files_total = count_all j.src_paths w }) w

  abbrev pub delete_one : ℕ → Str → Job → W → Job × W
  delete_one i src j w =
      let (a, w') = ops.delete_progress src w in (noted a (add_done a.counted j), w')

  unfoldable pub exec_delete : Job → W → Job × W
  exec_delete j w =
      for_sources delete_one 0 j.src_paths (record j { files_total = count_all j.src_paths w }) w

  abbrev pub trash_one : ℕ → Str → Job → W → Job × W
  trash_one i src j w =
      let (a, w') = ops.trash_path src w in (record (noted a j) { files_done = suc i }, w')

  unfoldable pub exec_trash : Job → W → Job × W
  exec_trash j w =
      for_sources trash_one 0 j.src_paths (record j { files_total = length j.src_paths }) w

  unfoldable pub exec_empty_trash : Job → W → Job × W
  exec_empty_trash j w =
      let (a, w') = ops.empty_all w in
      (record (noted a (record j { files_total = 1 })) { files_done = 1 }, w')

  -- The switch of `worker_func`, and the flag behind it.
  abbrev pub exec_type : JobType → Job → W → Job × W
  exec_type copy = exec_copy
  exec_type move = exec_move
  exec_type delete = exec_delete
  exec_type trash = exec_trash
  exec_type empty_trash = exec_empty_trash

  unfoldable pub exec : Job → W → Job × W
  exec j w = let (j', w') = exec_type j.type j w in (record j' { finished = true }, w')
