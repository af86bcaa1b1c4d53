-- ===== src/Fm/Tree/Gone.antt =====
-- Deleting a tree that stands at a path.
use mathlib.Core.List.{append_assoc}
use isde.Common.{
  ap, sym, ℕ, zero, suc, ◌≡◌, ◌≤◌, refl, Bool, true, false, not, ◌&&◌, ◌||◌, List, [], ◌∷◌, ◌++◌,
  none, some, Str, str_eq_refl, all-append, ◌>>=◌, Bool-cases, inl, inr, arith,
}
use isde.Fm.Tree.{
  lstat, opendir, rmdir, called, Log, Kernel, Result, child, is_dot, is_cancelled, for_entries,
  delete_dir, delete_kind, delete_level, delete_recursive,
}
use isde.Fm.Tree.Names.{is_name}
use isde.Fm.Tree.Stands.{
  FileTree, leaf, dir, Entries, end, entry, height, heights, names, removal, removals, untouched,
  has_gone, gone, all_gone, without_dots, fresh, Stands, StandIn,
}
use isde.Fm.Tree.Apart.{removal-untouched, child-untouched}

gone-append : (path : Str) (a b : Log) → gone path (a ++ b) ≡ (gone path a || gone path b)
gone-append path a b = ground (arith, all-append (λ e. not (has_gone path e)) a b)

removal-gone : (path : Str) (t : FileTree) → gone path (removal path t) ≡ true
unfolding removal
removal-gone path (leaf is_link) = ground (arith, str_eq_refl path)
removal-gone path (dir f) = ground (arith, str_eq_refl path)

-- Behind the deletion of its entries a directory is empty.
all_gone-append :
    (path : Str) (f : Entries) (a b : Log)
    → all_gone path f b ≡ true
    → all_gone path f (a ++ b) ≡ true
unfolding all_gone
all_gone-append path end a b h = refl
all_gone-append path (entry name t f) a b h =
    ground (arith, gone-append (child path name) a b, all_gone-append path f a b)

all_gone-removals :
    (path : Str) (f : Entries) (log : Log) → all_gone path f (removals path f ++ log) ≡ true
unfolding all_gone removals
all_gone-removals path end log = refl
all_gone-removals path (entry name t f) log =
    let here = removal (child path name) t in
    let whole : ((removals path f ++ here) ++ log) ≡ (removals path f ++ (here ++ log)) =
      append_assoc (removals path f) here log in
    rw whole (
      ground (
        arith,
        all_gone-removals path f (here ++ log),
        gone-append (child path name) (removals path f) (here ++ log),
        gone-append (child path name) here log,
        removal-gone (child path name) t,
      ))

for_entries-without_dots :
    (k : Kernel) (cb : Bool) (body : Str → Log → Result) (path : Str) (es : List Str) (ret : Bool)
    (log : Log)
    → for_entries k cb body path es ret log ≡ for_entries k cb body path (without_dots es) ret log
unfolding for_entries
for_entries-without_dots k cb body path [] ret log = refl
for_entries-without_dots k cb body path (name ∷ es) ret log = elim (Bool-cases (is_dot name)) [
  | inl e ↦ rw e (for_entries-without_dots k cb body path es ret log)
  | inr e ↦ elim (Bool-cases (is_cancelled k cb log)) [
    | inl e' ↦ rw (e, e, e') refl
    | inr e' ↦
        rw (e, e, e') (behind_entry (body name log) (for_entries-without_dots k cb body path es))
  ]
]
  where
    behind_entry :
        (o : Result)
        → ((ret' : Bool) (log' : Log)
            → for_entries k cb body path es ret' log'
              ≡ for_entries k cb body path (without_dots es) ret' log')
        → (o >>= λ r. for_entries k cb body path es (ret && r.0) r.1)
          ≡ (o >>= λ r. for_entries k cb body path (without_dots es) (ret && r.0) r.1)
    behind_entry none rest = refl
    behind_entry (some r) rest = rest (ret && r.0) r.1

-- Every entry of a directory is untouched.
unfoldable all_untouched : Str → Entries → Log → Bool
all_untouched path end log = true
all_untouched path (entry name t f) log =
    untouched (child path name) log && all_untouched path f log

untouched-all_untouched :
    (path : Str) (f : Entries) (log : Log)
    → untouched path log ≡ true
    → all_untouched path f log ≡ true
unfolding all_untouched
untouched-all_untouched path end log u = refl
untouched-all_untouched path (entry name t f) log u =
    ground (arith, child-untouched path name log u, untouched-all_untouched path f log u)

removal-all_untouched :
    (k : Kernel) (path a : Str) (t : FileTree) (f : Entries) (log : Log)
    → is_name a ≡ true
    → fresh a f ≡ true
    → StandIn k path f
    → all_untouched path f log ≡ true
    → all_untouched path f (removal (child path a) t ++ log) ≡ true
unfolding all_untouched StandIn names
removal-all_untouched k path a t end log n h s u = refl
removal-all_untouched k path a t (entry b t' f) log n h s u = ground (
  arith,
  removal-untouched path a b t log n s.0,
  removal-all_untouched k path a t f log n (ground arith) s.4,
)

module _ (k : Kernel) (cb : Bool) (calm : (log : Log) → is_cancelled k cb log ≡ false) where
  abbrev Removes : ℕ → Str → FileTree → Log → Type 0
  Removes depth path t log =
      delete_recursive k cb depth path log ≡ some (true, removal path t ++ log)

  mutual
    unfolding removal removals height heights Stands StandIn delete_recursive delete_level
        delete_kind delete_dir for_entries names all_untouched

    removes :
        (depth : ℕ) (path : Str) (t : FileTree) (log : Log)
        → height t ≤ depth
        → Stands k path t
        → untouched path log ≡ true
        → Removes depth path t log
    removes zero path (leaf is_link) log h s u = absurd (omega arith)
    removes zero path (dir f) log h s u = absurd (omega arith)
    removes (suc depth) path (leaf true) log h s u =
        rw (calm log, s.0 log u, s.1 (called lstat path true ∷ log) u) refl
    removes (suc depth) path (leaf false) log h s u =
        rw (calm log, s.0 log u, s.1 (called lstat path true ∷ log) u) refl
    removes (suc depth) path (dir f) log h s u =
        let log' = called lstat path true ∷ log in
        let log2 = called opendir path true ∷ log' in
        let (es, listed, e) = s.1 in
        rw
          (
            calm log,
            s.0 log u,
            listed log' u,
            for_entries-without_dots k cb (λ name. delete_recursive k cb depth (child path name))
                path es true log2,
            e,
            removes_in depth path f log2 (omega arith) s.3 (untouched-all_untouched path f log2 u),
            s.2 (removals path f ++ log2) (all_gone-removals path f log2),
          )
          (ap (λ l. some (true, called rmdir path true ∷ l))
            (sym (
              append_assoc (removals path f)
                (called opendir path true ∷ called lstat path true ∷ []) log)))

    removes_in :
        (depth : ℕ) (path : Str) (f : Entries) (log : Log)
        → heights f ≤ depth
        → StandIn k path f
        → all_untouched path f log ≡ true
        → for_entries k cb
            (λ name. delete_recursive k cb depth (child path name))
            path
            (names f)
            true
            log
          ≡ some (true, removals path f ++ log)
    removes_in depth path end log h s u = refl
    removes_in depth path (entry name t f) log h s u =
        let log' = removal (child path name) t ++ log in
        rw
          (
            s.1,
            calm log,
            removes depth (child path name) t log (ground arith) s.3 (ground arith),
            removes_in depth path f log' (ground arith) s.4
                (removal-all_untouched k path name t f log s.0 s.2 s.4 (ground arith)),
          )
          (ap (λ l. some (true, l))
            (sym (append_assoc (removals path f) (removal (child path name) t) log)))

-- When a tree stands at a path, nothing of it is removed yet and the flag is never read as set, a deletion with as many
-- levels as the tree is high returns 0. It makes the calls of `removal`: every file of the tree is unlinked, and every
-- directory is removed behind all its entries, so that rmdir(2) finds it empty.
pub delete_recursive-removal :
    (k : Kernel) (cb : Bool) (depth : ℕ) (path : Str) (t : FileTree) (log : Log)
    → ((l : Log) → is_cancelled k cb l ≡ false)
    → Stands k path t
    → untouched path log ≡ true
    → height t ≤ depth
    → delete_recursive k cb depth path log ≡ some (true, removal path t ++ log)
delete_recursive-removal k cb depth path t log calm s u h = removes k cb calm depth path t log h s u
