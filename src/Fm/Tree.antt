-- ===== src/Fm/Tree.antt =====
-- fm/src/fileops.c: copying and deleting a tree of files. What the kernel answers is an argument and may
-- depend on all calls before it; the calls are a log, the last first. `cb` is whether the caller passes the counters
-- and the flag that cancels, as the functions with the suffix _cb have them; without it they are the plain ones. An
-- operation is none when `depth` directories below each other are not enough. The counters only show the progress and
-- are left out, as are close, the mode of a file and what a file holds. The names of a directory are those it has when it
-- is opened.
pub mod Works
pub mod Names
pub mod Delete
pub mod Copy
pub mod Last
pub mod Depth
pub mod Total
pub mod Stands
pub mod Apart
pub mod Gone
mod Tests
use isde.Common.{
  ℕ, zero, suc, ◌+◌, ◌==◌, Bool, true, false, not, ◌&&◌, ◌||◌, List, [], ◌∷◌, ◌++◌, Option, none,
  some, is_some, Str, str_eq, codes, if◌then◌else◌, ◌>>=◌,
}
use isde.Fm.Conflict.{candidate}

pub data FileOp : Type 0 where
  lstat opendir readlink read : FileOp
  mkdir symlink create write unlink rmdir : FileOp

-- A call and whether it succeeds (for mkdir, or the directory is there); or the flag read as set; or the
-- lstat(2) by which `resolve_conflict` asks whether a name is taken, and the answer.
pub data Event : Type 0 where
  called : FileOp → Str → (succeeded : Bool) → Event
  cancelled : Str → Event
  asked : Str → (taken : Bool) → Event

abbrev pub Log : Type 0
Log = List Event

-- What st_mode says.
pub data Kind : Type 0 where
  directory link other : Kind

-- A part of a file that is read, and whether the writes of it succeed. A source that open(2) refuses is a failed read.
pub data Chunk : Type 0 where
  broken : Chunk
  bytes : (written : Bool) → Chunk

pub record Kernel : Type 0 where
  pub kind_of : Log → Str → Option Kind
  pub entries : Log → Str → Option (List Str)
  pub link_target : Log → Str → Option Str
  pub contents : Log → Str → Option (List Chunk)
  pub succeeds : Log → FileOp → Str → Bool
  pub flag : Log → Bool

-- What a function leaves: whether it returns 0, and the log.
abbrev pub Result : Type 0
Result = Option (Bool × Log)

-- "%s/%s"
abbrev pub child : (path name : Str) → Str
child path name = path ++ (47 ∷ name)

abbrev pub is_dot : Str → Bool
is_dot name = str_eq name (codes ".") || str_eq name (codes "..")

abbrev pub failed : FileOp → Str → Log → Result
failed op path log = some (false, called op path false ∷ log)

module _ (k : Kernel) (cb : Bool) where
  abbrev pub is_cancelled : Log → Bool
  is_cancelled log = cb && k.flag log

  -- A call whose result is all that counts.
  abbrev pub call : FileOp → Str → Log → Bool × Log
  call op path log = let ok = k.succeeds log op path in (ok, called op path ok ∷ log)

  abbrev pub stop : Str → Log → Result
  stop path log = some (false, cancelled path ∷ log)

  -- The loop over readdir, with what is done to an entry.
  unfoldable pub for_entries :
      (Str → Log → Result) → (path : Str) → List Str → (ret : Bool) → Log → Result
  for_entries body path [] ret log = some (ret, log)
  for_entries body path (name ∷ names) ret log =
      let skipped = for_entries body path names ret log in
      let entered = (do r ← body name log; for_entries body path names (ret && r.0) r.1) in
      if is_dot name then skipped else if is_cancelled log then stop path log else entered

  -- rmdir behind the loop
  abbrev pub removed_dir : Str → Bool × Log → Result
  removed_dir path (ret, log) = let (ok, log') = call rmdir path log in some (ret && ok, log')

  -- One level of `delete_recursive`, with what is done to an entry, behind lstat.
  unfoldable pub delete_dir : (Str → Log → Result) → (path : Str) → Log → Option (List Str) → Result
  delete_dir enter path log none = failed opendir path log
  delete_dir enter path log (some names) =
      for_entries enter path names true (called opendir path true ∷ log) >>= removed_dir path

  unfoldable pub delete_kind : (Str → Log → Result) → (path : Str) → Log → Option Kind → Result
  delete_kind enter path log none = failed lstat path log
  delete_kind enter path log (some directory) =
      let log' = called lstat path true ∷ log in delete_dir enter path log' (k.entries log' path)
  delete_kind enter path log (some link) = some (call unlink path (called lstat path true ∷ log))
  delete_kind enter path log (some other) = some (call unlink path (called lstat path true ∷ log))

  unfoldable pub delete_level : (Str → Log → Result) → (path : Str) → Log → Result
  delete_level enter path log =
      if is_cancelled log then stop path log else delete_kind enter path log (k.kind_of log path)

  unfoldable pub delete_recursive : (depth : ℕ) → (path : Str) → Log → Result
  delete_recursive zero path log = none
  delete_recursive (suc depth) path log =
      delete_level (λ name. delete_recursive depth (child path name)) path log

  -- The loop of `copy_file_cancellable` over the parts that read(2) gives.
  unfoldable pub copy_chunks : (src dst : Str) → List Chunk → Log → Bool × Log
  copy_chunks src dst [] log = (true, log)
  copy_chunks src dst (broken ∷ cs) log = (false, called read src false ∷ log)
  copy_chunks src dst (bytes written ∷ cs) log =
      let rest = copy_chunks src dst cs (called write dst true ∷ called read src true ∷ log) in
      if is_cancelled log
      then (false, cancelled dst ∷ called read src true ∷ log)
      else if written
      then rest
      else (false, called write dst false ∷ called read src true ∷ log)

  -- What is done behind the loop: a file that is cut short by the flag is removed.
  abbrev pub cleaned : (dst : Str) → Bool × Log → Bool × Log
  cleaned dst (ret, log) =
      if not ret && is_cancelled log then (ret, (call unlink dst log).1) else (ret, log)

  abbrev pub copy_created : (src dst : Str) → List Chunk → Bool × Log → Bool × Log
  copy_created src dst chunks (ok, log) =
      if ok then cleaned dst (copy_chunks src dst chunks log) else (false, log)

  abbrev pub copy_opened : (src dst : Str) → Log → Option (List Chunk) → Bool × Log
  copy_opened src dst log none = (false, called read src false ∷ log)
  copy_opened src dst log (some chunks) = copy_created src dst chunks (call create dst log)

  unfoldable pub copy_file : (src dst : Str) → Log → Bool × Log
  copy_file src dst log = copy_opened src dst log (k.contents log src)

  -- `resolve_conflict`, as in Fm/Conflict, with its calls: the loop from i on, and the whole.
  unfoldable pub first_name : (rounds i : ℕ) → (dst : Str) → Log → Str × Log
  first_name zero i dst log = (dst, log)
  first_name (suc rounds) i dst log =
      let q = candidate dst i in
      let taken = is_some (k.kind_of log q) in
      let rest = first_name rounds (suc i) dst (asked q taken ∷ log) in
      if taken then rest else (q, asked q taken ∷ log)

  unfoldable pub free_name : (dst : Str) → Log → Str × Log
  free_name dst log =
      let taken = is_some (k.kind_of log dst) in
      let log' = asked dst taken ∷ log in if taken then first_name 998 2 dst log' else (dst, log')

  abbrev pub copy_link : (src dst : Str) → Log → Option Str → Result
  copy_link src dst log none = failed readlink src log
  copy_link src dst log (some target) =
      let free = free_name dst (called readlink src true ∷ log) in some (call symlink free.0 free.1)

  -- One level of `copy_recursive`, behind lstat and mkdir.
  unfoldable pub copy_dir : (Str → Log → Result) → (src : Str) → Log → Option (List Str) → Result
  copy_dir enter src log none = failed opendir src log
  copy_dir enter src log (some names) =
      for_entries enter src names true (called opendir src true ∷ log)

  unfoldable pub copy_kind : (Str → Log → Result) → (src dst : Str) → Log → Option Kind → Result
  copy_kind enter src dst log none = failed lstat src log
  copy_kind enter src dst log (some directory) =
      let (made, log') = call mkdir dst (called lstat src true ∷ log) in
      if made then copy_dir enter src log' (k.entries log' src) else some (false, log')
  copy_kind enter src dst log (some link) =
      let log' = called lstat src true ∷ log in copy_link src dst log' (k.link_target log' src)
  copy_kind enter src dst log (some other) = some (copy_file src dst (called lstat src true ∷ log))

  unfoldable pub copy_level : (Str → Log → Result) → (src dst : Str) → Log → Result
  copy_level enter src dst log =
      if is_cancelled log then stop src log else copy_kind enter src dst log (k.kind_of log src)

  unfoldable pub copy_recursive : (depth : ℕ) → (src dst : Str) → Log → Result
  copy_recursive zero src dst log = none
  copy_recursive (suc depth) src dst log =
      copy_level
        (λ name l.
          copy_recursive depth (child src name) (free_name (child dst name) l).0
            (free_name (child dst name) l).1)
        src dst log

  -- `fileops_copy` and `fileops_copy_progress`
  unfoldable pub fileops_copy : (depth : ℕ) → (src dst : Str) → Log → Result
  fileops_copy depth src dst log =
      copy_recursive depth src (free_name dst log).0 (free_name dst log).1
