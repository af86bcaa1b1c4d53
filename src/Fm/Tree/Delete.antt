-- ===== src/Fm/Tree/Delete.antt =====
-- What a deletion does: only paths at and below the one that is deleted are removed, and it succeeds when every call
-- does.
use isde.Common.{
  ℕ, zero, suc, ◌≡◌, refl, Bool, true, false, not, ◌&&◌, ◌||◌, List, [], ◌∷◌, ◌++◌, Option, none,
  some, Str, all, Bool-cases, inl, inr, ◌>>=◌, arith,
}
use isde.Common.Stdio.{behind}
use isde.Fm.Tree.{
  FileOp, lstat, opendir, unlink, rmdir, Event, called, cancelled, asked, Log, Kernel, Kind,
  directory, link, other, Result, child, is_cancelled, removed_dir, delete_dir, delete_kind,
  delete_level, delete_recursive,
}
use isde.Fm.Tree.Works.{
  is_below, Works, WorksIn, deep, worked, Works-call, WorksIn-le, WorksIn-trans,
  for_entries-WorksIn,
}

-- What a deletion may do.
abbrev pub is_deleting : FileOp → Bool
is_deleting lstat = true
is_deleting opendir = true
is_deleting unlink = true
is_deleting rmdir = true
is_deleting _ = false

abbrev pub deletes : Str → Event → Bool
deletes path (called op q ok) = is_deleting op && is_below path q
deletes path (cancelled q) = is_below path q
deletes path (asked q taken) = false

pub behind-below : (path rest : Str) → behind path (path ++ rest) ≡ some rest
behind-below [] rest = refl
behind-below (c ∷ path) rest = ground (arith, behind-below path rest)

pub is_below_refl : (path : Str) → is_below path path ≡ true
is_below_refl [] = refl
is_below_refl (c ∷ path) = ground (arith, is_below_refl path)

is_below-longer :
    (path q : Str) (name : Str) → is_below path q ≡ true → is_below path (child q name) ≡ true
is_below-longer [] [] name h = refl
is_below-longer [] (d ∷ q) name h = h
is_below-longer (c ∷ path) [] name h = cc
is_below-longer (c ∷ path) (d ∷ q) name h = ground (arith, is_below-longer path q name)

-- Below a path that is below.
pub is_below_trans : (p q r : Str) → is_below p q ≡ true → is_below q r ≡ true → is_below p r ≡ true
is_below_trans [] [] r h h' = h'
is_below_trans [] (d ∷ q) [] h h' = refl
is_below_trans [] (d ∷ q) (e ∷ r) h h' = ground arith
is_below_trans (c ∷ p) [] r h h' = cc
is_below_trans (c ∷ p) (d ∷ q) [] h h' = cc
is_below_trans (c ∷ p) (d ∷ q) (e ∷ r) h h' = ground (arith, is_below_trans p q r)

pub child-is_below : (path name : Str) → is_below path (child path name) ≡ true
child-is_below path name = rw (behind-below path (47 ∷ name)) refl

deletes-child :
    (path name : Str) (e : Event) → (not (deletes (child path name) e) || deletes path e) ≡ true
deletes-child path name (called op q ok) =
    ground (arith, is_below_trans path (child path name) q (child-is_below path name))
deletes-child path name (asked q taken) = refl
deletes-child path name (cancelled q) =
    ground (arith, is_below_trans path (child path name) q (child-is_below path name))

pub all-true : (names : List Str) → all (λ n. true) names ≡ true
all-true [] = refl
all-true (n ∷ names) = all-true names

module _ (k : Kernel) (cb : Bool) where
  abbrev At : Str → Bool → Log → Result → Type 0
  At path = WorksIn (deletes path)

  -- rmdir behind the loop
  removed_dir-WorksIn :
      (path : Str) (log : Log) {o : Result}
      → At path true log o
      → At path true log (o >>= removed_dir k cb path)
  removed_dir-WorksIn path log deep = deep
  removed_dir-WorksIn path log (worked {r} w) =
      let ok = k.succeeds r.1 rmdir path in
      let w' = Works-call (deletes path) true log r rmdir path ok (is_below_refl path) w in
      worked (record {
        new = w'.new;
        added = w'.added;
        fits = w'.fits;
        returns = ground (arith, w'.returns);
      })

  single :
      (path : Str) (log : Log) (op : FileOp) (ok : Bool)
      → is_deleting op ≡ true
      → Works
          (deletes path)
          true
          (called lstat path true ∷ log)
          (ok, called op path ok ∷ called lstat path true ∷ log)
  single path log op ok h = record {
    new = called op path ok ∷ [];
    added = refl;
    fits = ground (arith, is_below_refl path);
    returns = ground arith;
  }

  behind_lstat :
      (path : Str) (log : Log) {o : Result}
      → At path true (called lstat path true ∷ log) o
      → At path true log o
  behind_lstat path log o =
      WorksIn-trans (deletes path) true log (true, called lstat path true ∷ log)
        (record {
          new = called lstat path true ∷ [];
          added = refl;
          fits = ground (arith, is_below_refl path);
          returns = refl;
        })
        o

  module _ (path : Str) (enter : Str → Log → Result)
      (enters : (name : Str) (log : Log)
        → WorksIn (deletes (child path name)) true log (enter name log)) where
    delete_dir-WorksIn :
        (log : Log) (o : Option (List Str)) → At path true log (delete_dir k cb enter path log o)
    unfolding delete_dir
    delete_dir-WorksIn log none = worked (record {
      new = called opendir path false ∷ [];
      added = refl;
      fits = ground (arith, is_below_refl path);
      returns = refl;
    })
    delete_dir-WorksIn log (some names) = removed_dir-WorksIn path log (
        WorksIn-trans (deletes path) true log (true, called opendir path true ∷ log)
          (record {
            new = called opendir path true ∷ [];
            added = refl;
            fits = ground (arith, is_below_refl path);
            returns = refl;
          })
          (for_entries-WorksIn k cb (deletes path) path (λ n. true) enter (is_below_refl path)
            (λ name log' h.
              WorksIn-le (deletes (child path name)) (deletes path) true log'
                (deletes-child path name) (enters name log'))
            names true (called opendir path true ∷ log) (all-true names)))

    delete_kind-WorksIn :
        (log : Log) (o : Option Kind) → At path true log (delete_kind k cb enter path log o)
    unfolding delete_kind
    delete_kind-WorksIn log none = worked (record {
      new = called lstat path false ∷ [];
      added = refl;
      fits = ground (arith, is_below_refl path);
      returns = refl;
    })
    delete_kind-WorksIn log (some directory) =
        let log' = called lstat path true ∷ log in
        behind_lstat path log (delete_dir-WorksIn log' (k.entries log' path))
    delete_kind-WorksIn log (some link) = behind_lstat path log (
        worked
          (single path log unlink (k.succeeds (called lstat path true ∷ log) unlink path) refl))
    delete_kind-WorksIn log (some other) = behind_lstat path log (
        worked
          (single path log unlink (k.succeeds (called lstat path true ∷ log) unlink path) refl))

    delete_level-WorksIn : (log : Log) → At path true log (delete_level k cb enter path log)
    unfolding delete_level
    delete_level-WorksIn log = elim (Bool-cases (is_cancelled k cb log)) [
      | inl e ↦ rw e (
          worked (record {
            new = cancelled path ∷ [];
            added = refl;
            fits = ground (arith, is_below_refl path);
            returns = refl;
          }))
      | inr e ↦ rw e (delete_kind-WorksIn log (k.kind_of log path))
    ]

  -- Whatever the kernel answers and whenever the flag is set: a deletion only reads and removes at and below its path,
  -- and returns 0 exactly when all its calls succeed and the flag was not read as set.
  pub delete_recursive-WorksIn :
      (depth : ℕ) (path : Str) (log : Log)
      → WorksIn (deletes path) true log (delete_recursive k cb depth path log)
  unfolding delete_recursive
  delete_recursive-WorksIn zero path log = deep
  delete_recursive-WorksIn (suc depth) path log =
      delete_level-WorksIn path (λ name. delete_recursive k cb depth (child path name))
        (λ name log'. delete_recursive-WorksIn depth (child path name) log') log
