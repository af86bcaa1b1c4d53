-- ===== src/Fm/Tree/Last.antt =====
-- The last call of a deletion that succeeds.
use isde.Common.{
  ap, sym, ◌∙◌, ℕ, suc, ◌≡◌, refl, Bool, true, false, not, ◌&&◌, ◌||◌, List, [], ◌∷◌, Option, none,
  some, Str, str_eq, str_eq_refl, Bool-cases, inl, inr, ◌>>=◌, arith,
}
use isde.Fm.Tree.{
  FileOp, unlink, rmdir, called, cancelled, asked, opendir, lstat, Log, Kernel, Kind, directory,
  link, other, Result, child, is_cancelled, for_entries, removed_dir, delete_dir, delete_kind,
  delete_level, delete_recursive,
}

abbrev pub is_removing : FileOp → Bool
is_removing unlink = true
is_removing rmdir = true
is_removing _ = false

-- The last call has removed a path.
abbrev pub has_removed : Str → Log → Bool
has_removed path [] = false
has_removed path (called op q ok ∷ log) = is_removing op && (str_eq q path && ok)
has_removed path (cancelled q ∷ log) = false
has_removed path (asked q taken ∷ log) = false

-- When 0 is returned.
abbrev removed_in : Str → Result → Bool
removed_in path none = true
removed_in path (some r) = not r.0 || has_removed path r.1

abbrev Removed : Str → Result → Type 0
Removed path o = removed_in path o ≡ true

module _ (k : Kernel) (cb : Bool) (enter : Str → Log → Result) (path : Str) where
  removing :
      (log : Log) (op : FileOp) (ret ok : Bool)
      → is_removing op ≡ true
      → Removed path (some (ret && ok, called op path ok ∷ log))
  removing log op ret ok h = ground (arith, str_eq_refl path)

  removed_dir-Removed : (o : Result) → Removed path (o >>= removed_dir k cb path)
  removed_dir-Removed none = refl
  removed_dir-Removed (some (ret, log)) = removing log rmdir ret (k.succeeds log rmdir path) refl

  delete_dir-Removed :
      (log : Log) (o : Option (List Str)) → Removed path (delete_dir k cb enter path log o)
  unfolding delete_dir
  delete_dir-Removed log none = refl
  delete_dir-Removed log (some names) =
      removed_dir-Removed (for_entries k cb enter path names true (called opendir path true ∷ log))

  delete_kind-Removed :
      (log : Log) (o : Option Kind) → Removed path (delete_kind k cb enter path log o)
  unfolding delete_kind
  delete_kind-Removed log none = refl
  delete_kind-Removed log (some directory) =
      let log' = called lstat path true ∷ log in delete_dir-Removed log' (k.entries log' path)
  delete_kind-Removed log (some link) =
      let log' = called lstat path true ∷ log in
      removing log' unlink true (k.succeeds log' unlink path) refl
  delete_kind-Removed log (some other) =
      let log' = called lstat path true ∷ log in
      removing log' unlink true (k.succeeds log' unlink path) refl

delete_recursive-Removed :
    (k : Kernel) (cb : Bool) (depth : ℕ) (path : Str) (log : Log)
    → Removed path (delete_recursive k cb (suc depth) path log)
unfolding delete_recursive delete_level
delete_recursive-Removed k cb depth path log = elim (Bool-cases (is_cancelled k cb log)) [
  | inl e ↦ rw e refl
  | inr e ↦ rw e (
      delete_kind-Removed k cb (λ name. delete_recursive k cb depth (child path name)) path log
        (k.kind_of log path))
]

pub delete_recursive-has_removed :
    (k : Kernel) (cb : Bool) (depth : ℕ) (path : Str) (log : Log) (r : Bool × Log)
    → delete_recursive k cb (suc depth) path log ≡ some r
    → (not r.0 || has_removed path r.1) ≡ true
delete_recursive-has_removed k cb depth path log r e =
    sym (ap (removed_in path) e) ∙ delete_recursive-Removed k cb depth path log
