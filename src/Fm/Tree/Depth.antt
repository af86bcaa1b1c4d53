-- ===== src/Fm/Tree/Depth.antt =====
-- A kernel that refuses long paths bounds the depth of a tree, so the recursion ends.
use isde.Common.{
  ℕ, zero, suc, ◌+◌, ◌≤◌, ◌≡◌, refl, Bool, true, ◌&&◌, List, [], ◌∷◌, Option, none, some, is_some,
  Str, length, length-append, Bool-cases, inl, inr, ◌>>=◌, arith,
}
use isde.Fm.Trash.{path_max}
use isde.Fm.Tree.{
  called, opendir, lstat, mkdir, Log, Kernel, Kind, directory, link, other, Result, child, is_dot,
  is_cancelled, for_entries, removed_dir, delete_dir, delete_kind, delete_level, delete_recursive,
  copy_link, copy_dir, copy_kind, copy_level, copy_recursive, free_name, fileops_copy,
}

-- What lstat(2) says of a path that does not fit PATH_MAX bytes: ENAMETOOLONG.
abbrev pub RefusesLong : Kernel → Type 0
RefusesLong k = (log : Log) (path : Str) → path_max ≤ length path → k.kind_of log path ≡ none

abbrev Ends : Result → Type 0
Ends r = is_some r ≡ true

length-child : (path name : Str) → suc (length path) ≤ length (child path name)
length-child path name = omega (arith, length-append path (47 ∷ name))

module _ (k : Kernel) (cb : Bool) where
  for_entries-Ends :
      (body : Str → Log → Result) (path : Str)
      → ((name : Str) (log : Log) → Ends (body name log))
      → (names : List Str) (ret : Bool) (log : Log)
      → Ends (for_entries k cb body path names ret log)
  unfolding for_entries
  for_entries-Ends body path h [] ret log = refl
  for_entries-Ends body path h (name ∷ names) ret log = elim (Bool-cases (is_dot name)) [
    | inl e ↦ rw e (for_entries-Ends body path h names ret log)
    | inr e ↦ elim (Bool-cases (is_cancelled k cb log)) [
      | inl e' ↦ rw (e, e') refl
      | inr e' ↦
          rw (e, e')
            (behind_entry (body name log) (h name log) (for_entries-Ends body path h names))
    ]
  ]
    where
      behind_entry :
          (o : Result)
          → Ends o
          → ((ret' : Bool) (log' : Log) → Ends (for_entries k cb body path names ret' log'))
          → Ends (o >>= λ r. for_entries k cb body path names (ret && r.0) r.1)
      behind_entry none e rest = cc
      behind_entry (some r) e rest = rest (ret && r.0) r.1

  removed_dir-Ends : (path : Str) (o : Result) → Ends o → Ends (o >>= removed_dir k cb path)
  removed_dir-Ends path none e = cc
  removed_dir-Ends path (some r) e = refl

  copy_link-Ends :
      (src dst : Str) (log : Log) (o : Option Str) → Ends (copy_link k cb src dst log o)
  copy_link-Ends src dst log none = refl
  copy_link-Ends src dst log (some target) = refl

  module _ (enter : Str → Log → Result)
      (enters : (name : Str) (log : Log) → Ends (enter name log)) where
    delete_dir-Ends :
        (path : Str) (log : Log) (o : Option (List Str)) → Ends (delete_dir k cb enter path log o)
    unfolding delete_dir
    delete_dir-Ends path log none = refl
    delete_dir-Ends path log (some names) =
        removed_dir-Ends path _
          (for_entries-Ends enter path enters names true (called opendir path true ∷ log))

    delete_kind-Ends :
        (path : Str) (log : Log) (o : Option Kind) → Ends (delete_kind k cb enter path log o)
    unfolding delete_kind
    delete_kind-Ends path log none = refl
    delete_kind-Ends path log (some directory) =
        let log' = called lstat path true ∷ log in delete_dir-Ends path log' (k.entries log' path)
    delete_kind-Ends path log (some link) = refl
    delete_kind-Ends path log (some other) = refl

    copy_dir-Ends :
        (src : Str) (log : Log) (o : Option (List Str)) → Ends (copy_dir k cb enter src log o)
    unfolding copy_dir
    copy_dir-Ends src log none = refl
    copy_dir-Ends src log (some names) =
        for_entries-Ends enter src enters names true (called opendir src true ∷ log)

    copy_kind-Ends :
        (src dst : Str) (log : Log) (o : Option Kind) → Ends (copy_kind k cb enter src dst log o)
    unfolding copy_kind
    copy_kind-Ends src dst log none = refl
    copy_kind-Ends src dst log (some directory) =
        let l = called lstat src true ∷ log in
        elim (Bool-cases (k.succeeds l mkdir dst)) [
          | inl e ↦ rw e (
              copy_dir-Ends src (called mkdir dst true ∷ l)
                (k.entries (called mkdir dst true ∷ l) src))
          | inr e ↦ rw e refl
        ]
    copy_kind-Ends src dst log (some link) =
        let log' = called lstat src true ∷ log in
        copy_link-Ends src dst log' (k.link_target log' src)
    copy_kind-Ends src dst log (some other) = refl

  module _ (refuses : RefusesLong k) where
    delete_recursive-Ends :
        (d : ℕ) (path : Str) (log : Log)
        → path_max ≤ length path + d
        → Ends (delete_recursive k cb (suc d) path log)
    unfolding delete_recursive delete_level
    delete_recursive-Ends zero path log h = elim (Bool-cases (is_cancelled k cb log)) [
      | inl e ↦ rw e refl
      | inr e ↦ rw (e, refuses log path (omega arith)) (unfold delete_kind in refl)
    ]
    delete_recursive-Ends (suc d) path log h = elim (Bool-cases (is_cancelled k cb log)) [
      | inl e ↦ rw e refl
      | inr e ↦ rw e (
          delete_kind-Ends (λ name. delete_recursive k cb (suc d) (child path name))
            (λ name l.
              delete_recursive-Ends d (child path name) l (omega (arith, length-child path name)))
            path log (k.kind_of log path))
    ]

    copy_recursive-Ends :
        (d : ℕ) (src dst : Str) (log : Log)
        → path_max ≤ length src + d
        → Ends (copy_recursive k cb (suc d) src dst log)
    unfolding copy_recursive copy_level
    copy_recursive-Ends zero src dst log h = elim (Bool-cases (is_cancelled k cb log)) [
      | inl e ↦ rw e refl
      | inr e ↦ rw (e, refuses log src (omega arith)) (unfold copy_kind in refl)
    ]
    copy_recursive-Ends (suc d) src dst log h = elim (Bool-cases (is_cancelled k cb log)) [
      | inl e ↦ rw e refl
      | inr e ↦ rw e (
          copy_kind-Ends
            (λ name l.
              copy_recursive k cb (suc d) (child src name) (free_name k cb (child dst name) l).0
                (free_name k cb (child dst name) l).1)
            (λ name l.
              copy_recursive-Ends d (child src name) (free_name k cb (child dst name) l).0
                (free_name k cb (child dst name) l).1 (omega (arith, length-child src name)))
            src dst log (k.kind_of log src))
    ]

    -- On every path, a directory below which there are 4096 levels is never reached.
    pub delete_recursive-ends :
        (path : Str) (log : Log) → is_some (delete_recursive k cb (suc path_max) path log) ≡ true
    delete_recursive-ends path log = delete_recursive-Ends path_max path log (omega arith)

    pub fileops_copy-ends :
        (src dst : Str) (log : Log) → is_some (fileops_copy k cb (suc path_max) src dst log) ≡ true
    unfolding fileops_copy
    fileops_copy-ends src dst log =
        copy_recursive-Ends path_max src (free_name k cb dst log).0 (free_name k cb dst log).1
          (omega arith)
