-- ===== src/Fm/Tree/Stands.antt =====
-- A tree of files, when it stands at a path of the file system, and the calls that delete it. A directory can only be
-- removed when its entries are gone.
use isde.Common.{
  ℕ, suc, ◌≡◌, Bool, true, false, not, ◌&&◌, List, [], ◌∷◌, ◌++◌, some, Str, str_eq, leb, all,
  if◌then◌else◌,
}
use isde.Fm.Tree.{
  lstat, opendir, unlink, rmdir, Event, called, cancelled, asked, Log, Kernel, directory, link,
  other, child, is_dot,
}
use isde.Fm.Tree.Works.{is_below}
use isde.Fm.Tree.Last.{is_removing}
use isde.Fm.Tree.Names.{is_name}

mutual
  pub data FileTree : Type 0 where
    leaf : (is_link : Bool) → FileTree
    dir : Entries → FileTree

  pub data Entries : Type 0 where
    end : Entries
    entry : (name : Str) → FileTree → Entries → Entries

abbrev pub higher : ℕ → ℕ → ℕ
higher a b = if leb a b then b else a

unfoldable mutual
  pub height : FileTree → ℕ
  height (leaf is_link) = 1
  height (dir f) = suc (heights f)

  pub heights : Entries → ℕ
  heights end = 0
  heights (entry name t f) = higher (height t) (heights f)

unfoldable pub names : Entries → List Str
names end = []
names (entry name t f) = name ∷ names f

-- The calls that delete a tree, the last first: the entries in their order, and each directory behind its entries.
unfoldable mutual
  pub removal : Str → FileTree → Log
  removal path (leaf is_link) = called unlink path true ∷ called lstat path true ∷ []
  removal path (dir f) =
      called rmdir path true
      ∷ (removals path f ++ (called opendir path true ∷ called lstat path true ∷ []))

  pub removals : Str → Entries → Log
  removals path end = []
  removals path (entry name t f) = removals path f ++ removal (child path name) t

abbrev pub removes_at : Str → Event → Bool
removes_at path (called op q ok) = is_removing op && is_below path q
removes_at path (cancelled q) = false
removes_at path (asked q taken) = false

-- Nothing at or below a path is removed yet.
abbrev pub untouched : Str → Log → Bool
untouched path log = all (λ e. not (removes_at path e)) log

abbrev pub has_gone : Str → Event → Bool
has_gone path (called op q ok) = is_removing op && (str_eq q path && ok)
has_gone path (cancelled q) = false
has_gone path (asked q taken) = false

abbrev pub gone : Str → Log → Bool
gone path log = not (all (λ e. not (has_gone path e)) log)

unfoldable pub all_gone : Str → Entries → Log → Bool
all_gone path end log = true
all_gone path (entry name t f) log = gone (child path name) log && all_gone path f log

abbrev pub without_dots : List Str → List Str
without_dots [] = []
without_dots (name ∷ es) = if is_dot name then without_dots es else name ∷ without_dots es

abbrev pub fresh : Str → Entries → Bool
fresh name f = all (λ other_name. not (str_eq name other_name)) (names f)

-- What the kernel answers on a tree that is untouched, and when rmdir(2) succeeds.
unfoldable mutual
  pub Stands : Kernel → Str → FileTree → Type 0
  Stands k path (leaf is_link) =
      ((log : Log)
        → untouched path log ≡ true
        → k.kind_of log path ≡ some (if is_link then link else other))
      × ((log : Log) → untouched path log ≡ true → k.succeeds log unlink path ≡ true)
  Stands k path (dir f) =
      ((log : Log) → untouched path log ≡ true → k.kind_of log path ≡ some directory)
      × ((es : List Str) × ((log : Log) → untouched path log ≡ true → k.entries log path ≡ some es)
          × (without_dots es ≡ names f))
      × ((log : Log) → all_gone path f log ≡ true → k.succeeds log rmdir path ≡ true)
      × StandIn k path f

  pub StandIn : Kernel → Str → Entries → Type 0
  StandIn k path end = Unit {0}
  StandIn k path (entry name t f) =
      (is_name name ≡ true)
      × (is_dot name ≡ false)
      × (fresh name f ≡ true)
      × Stands k (child path name) t
      × StandIn k path f
