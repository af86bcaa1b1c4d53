-- ===== src/Fm/Tree/Apart.antt =====
-- What is removed for one entry of a directory is apart from the other entries.
use isde.Common.{◌≡◌, refl, true, false, not, ◌||◌, [], ◌∷◌, ◌++◌, Str, str_eq, all-append, arith}
use isde.Fm.Tree.{lstat, opendir, Event, called, cancelled, asked, Log, child}
use isde.Fm.Tree.Works.{is_below, path_of, all_below, all-le}
use isde.Fm.Tree.Delete.{is_below_refl, is_below_trans, child-is_below}
use isde.Fm.Tree.Names.{is_name}
use isde.Fm.Tree.Stands.{
  FileTree, leaf, dir, Entries, end, entry, removal, removals, removes_at, untouched,
}

all_below-child :
    (path name : Str) (log : Log)
    → all_below (child path name) log ≡ true
    → all_below path log ≡ true
all_below-child path name log h =
    all-le (λ e. is_below (child path name) (path_of e)) (λ e. is_below path (path_of e))
      (λ e.
        ground
          (arith, is_below_trans path (child path name) (path_of e) (child-is_below path name)))
      log h

mutual
  unfolding removal removals

  removal-all_below : (path : Str) (t : FileTree) → all_below path (removal path t) ≡ true
  removal-all_below path (leaf is_link) = ground (arith, is_below_refl path)
  removal-all_below path (dir f) = ground (
    arith,
    is_below_refl path,
    removals-all_below path f,
    all-append (λ e. is_below path (path_of e)) (removals path f)
        (called opendir path true ∷ called lstat path true ∷ []),
  )

  removals-all_below : (path : Str) (f : Entries) → all_below path (removals path f) ≡ true
  removals-all_below path end = refl
  removals-all_below path (entry name t f) = ground (
    arith,
    all-append (λ e. is_below path (path_of e)) (removals path f) (removal (child path name) t),
    removals-all_below path f,
    all_below-child path name (removal (child path name) t) (removal-all_below (child path name) t),
  )

-- One path is not below two names of a directory.
is_below-name :
    (a b q : Str)
    → is_name a ≡ true
    → is_name b ≡ true
    → is_below a q ≡ true
    → is_below b q ≡ true
    → str_eq a b ≡ true
unfolding str_eq
is_below-name [] [] q n m h h' = refl
is_below-name [] (d ∷ b) [] n m h h' = cc
is_below-name [] (d ∷ b) (e ∷ q) n m h h' = ground arith
is_below-name (c ∷ a) b [] n m h h' = cc
is_below-name (c ∷ a) [] (e ∷ q) n m h h' = ground arith
is_below-name (c ∷ a) (d ∷ b) (e ∷ q) n m h h' = ground (arith, is_below-name a b q)

is_below-apart :
    (path a b q : Str)
    → is_name a ≡ true
    → is_name b ≡ true
    → is_below (child path a) q ≡ true
    → is_below (child path b) q ≡ true
    → str_eq a b ≡ true
is_below-apart [] a b [] n m h h' = cc
is_below-apart (c ∷ path) a b [] n m h h' = cc
is_below-apart [] a b (e ∷ q) n m h h' = ground (arith, is_below-name a b q)
is_below-apart (c ∷ path) a b (e ∷ q) n m h h' = ground (arith, is_below-apart path a b q)

-- Removing one entry leaves another untouched.
pub removal-untouched :
    (path a b : Str) (t : FileTree) (log : Log)
    → is_name a ≡ true
    → is_name b ≡ true
    → str_eq a b ≡ false
    → untouched (child path b) log ≡ true
    → untouched (child path b) (removal (child path a) t ++ log) ≡ true
removal-untouched path a b t log n m h u = ground (
  arith,
  all-append (λ e. not (removes_at (child path b) e)) (removal (child path a) t) log,
  all-le (λ e. is_below (child path a) (path_of e)) (λ e. not (removes_at (child path b) e)) apart
      (removal (child path a) t) (removal-all_below (child path a) t),
)
  where
    apart :
        (e : Event)
        → (not (is_below (child path a) (path_of e)) || not (removes_at (child path b) e)) ≡ true
    apart (called op q ok) = ground (arith, is_below-apart path a b q n m)
    apart (cancelled q) = ground arith
    apart (asked q taken) = ground arith

-- An entry of an untouched directory is untouched.
pub child-untouched :
    (path name : Str) (log : Log)
    → untouched path log ≡ true
    → untouched (child path name) log ≡ true
child-untouched path name log u =
    all-le (λ e. not (removes_at path e)) (λ e. not (removes_at (child path name) e)) below log u
  where
    below :
        (e : Event) → (not (not (removes_at path e)) || not (removes_at (child path name) e)) ≡ true
    below (called op q ok) =
        ground (arith, is_below_trans path (child path name) q (child-is_below path name))
    below (cancelled q) = refl
    below (asked q taken) = refl
