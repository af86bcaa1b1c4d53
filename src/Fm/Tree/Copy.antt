-- ===== src/Fm/Tree/Copy.antt =====
-- What a copy does: it reads at and below the source and writes at and below the destination.
use isde.Common.{
  ap, sym, ◌∙◌, ℕ, zero, suc, ◌≡◌, refl, Bool, true, false, not, ◌&&◌, ◌||◌, List, [], ◌∷◌, ◌++◌,
  Option, none, some, is_some, Str, all, Bool-cases, inl, inr, if◌then◌else◌, arith,
}
use isde.Common.Stdio.{behind}
use isde.Fm.Tree.{
  FileOp, lstat, opendir, readlink, read, mkdir, symlink, create, write, unlink, Event, called,
  cancelled, asked, Log, Kernel, Kind, directory, link, other, Chunk, broken, bytes, Result, child,
  is_cancelled, copy_chunks, cleaned, copy_created, copy_opened, copy_file, free_name, copy_link,
  copy_dir, copy_kind, copy_level, copy_recursive,
}
use isde.Fm.Tree.Names.{
  is_name, dir_of-child, in_directory, is_beside, beside-below, Place-child, Place-is_beside, looks,
  free_name-Named,
}
use isde.Fm.Tree.Delete.{is_below_refl, is_below_trans, child-is_below}
use isde.Fm.Tree.Works.{
  Works-le, is_below, Works, WorksIn, deep, worked, Works-none, Works-call, Works-trans, WorksIn-le,
  WorksIn-trans, for_entries-WorksIn,
}

abbrev pub is_reading : FileOp → Bool
is_reading lstat = true
is_reading opendir = true
is_reading readlink = true
is_reading read = true
is_reading _ = false

abbrev pub is_writing : FileOp → Bool
is_writing mkdir = true
is_writing symlink = true
is_writing create = true
is_writing write = true
is_writing unlink = true
is_writing _ = false

abbrev pub is_symlink : FileOp → Bool
is_symlink symlink = true
is_symlink _ = false

-- What a copy may do: a link may get another name in the directory of its destination, and names may be asked for
-- there.
abbrev pub copies : (src dst : Str) → Event → Bool
copies src dst (called op q ok) =
    (is_reading op && is_below src q)
    || ((is_writing op && is_below dst q) || (is_symlink op && is_beside dst q))
copies src dst (cancelled q) = is_below src q || is_below dst q
copies src dst (asked q taken) = is_below dst q || is_beside dst q

slash-below : (path q : Str) → is_some (behind (path ++ 47 ∷ []) q) ≡ true → is_below path q ≡ true
slash-below [] [] h = cc
slash-below [] (d ∷ q) h = ground arith
slash-below (c ∷ path) [] h = cc
slash-below (c ∷ path) (d ∷ q) h = ground (arith, slash-below path q)

implied : (a b : Bool) → (a ≡ true → b ≡ true) → (not a || b) ≡ true
implied true b h = h refl
implied false b h = refl

copies-cases :
    (op : FileOp) (a a' b b' c d : Bool)
    → (not a || a') ≡ true
    → (not b || b') ≡ true
    → (not c || b') ≡ true
    → (not ((is_reading op && a) || ((is_writing op && b) || (is_symlink op && c)))
        || ((is_reading op && a') || ((is_writing op && b') || (is_symlink op && d))))
      ≡ true
copies-cases lstat a a' b b' c d f g h = ground arith
copies-cases _ a a' b b' c d f g h = ground arith

copies-child :
    (src dst name name' : Str)
    → is_name name' ≡ true
    → (e : Event) → (not (copies (child src name) (child dst name') e) || copies src dst e) ≡ true
copies-child src dst name name' h (called op q ok) =
    let here : is_beside (child dst name') q ≡ in_directory (behind (dst ++ 47 ∷ []) q) =
      ap (λ d. in_directory (behind d q)) (dir_of-child dst name' h) in
    copies-cases op (is_below (child src name) q) (is_below src q) (is_below (child dst name') q)
      (is_below dst q) (is_beside (child dst name') q) (is_beside dst q)
      (implied _ _ (is_below_trans src (child src name) q (child-is_below src name)))
      (implied _ _ (is_below_trans dst (child dst name') q (child-is_below dst name')))
      (implied _ _ (λ b. slash-below dst q (beside-below (dst ++ 47 ∷ []) q (sym here ∙ b))))
copies-child src dst name name' h (asked q taken) =
    let here : is_beside (child dst name') q ≡ in_directory (behind (dst ++ 47 ∷ []) q) =
      ap (λ d. in_directory (behind d q)) (dir_of-child dst name' h) in
    implied (is_below (child dst name') q || is_beside (child dst name') q)
      (is_below dst q || is_beside dst q)
      (λ b. ground (
        arith,
        b,
        here,
        is_below_trans dst (child dst name') q (child-is_below dst name'),
        beside-below (dst ++ 47 ∷ []) q,
        slash-below dst q,
      ))
copies-child src dst name name' h (cancelled q) = ground (
  arith,
  is_below_trans src (child src name) q (child-is_below src name),
  is_below_trans dst (child dst name') q (child-is_below dst name'),
)

looks-copies : (src dst : Str) (e : Event) → (not (looks dst e) || copies src dst e) ≡ true
looks-copies src dst (asked q taken) = ground arith
looks-copies src dst (called op q ok) = refl
looks-copies src dst (cancelled q) = refl

-- The names that are asked for an entry lie below the destination.
looks-child :
    (src dst name : Str)
    → is_name name ≡ true
    → (e : Event) → (not (looks (child dst name) e) || copies src dst e) ≡ true
looks-child src dst name h (asked q taken) =
    let here : is_beside (child dst name) q ≡ in_directory (behind (dst ++ 47 ∷ []) q) =
      ap (λ d. in_directory (behind d q)) (dir_of-child dst name h) in
    ground (arith, here, beside-below (dst ++ 47 ∷ []) q, slash-below dst q)
looks-child src dst name h (called op q ok) = refl
looks-child src dst name h (cancelled q) = refl

module _ (k : Kernel) (cb : Bool) (src dst : Str) where
  abbrev fits : Event → Bool
  fits = copies src dst

  abbrev Copies : Bool → Log → Bool × Log → Type 0
  Copies = Works fits

  reads : (op : FileOp) (ok : Bool) → is_reading op ≡ true → fits (called op src ok) ≡ true
  reads op ok h = ground (arith, is_below_refl src)

  writes : (op : FileOp) (ok : Bool) → is_writing op ≡ true → fits (called op dst ok) ≡ true
  writes op ok h = ground (arith, is_below_refl dst)

  stops : fits (cancelled src) ≡ true
  stops = ground (arith, is_below_refl src)

  stops_dst : fits (cancelled dst) ≡ true
  stops_dst = ground (arith, is_below_refl dst)

  -- A first call.
  one :
      (log : Log) (op : FileOp) (q : Str) (ok : Bool)
      → fits (called op q ok) ≡ true
      → Copies true log (ok, called op q ok ∷ log)
  one log op q ok h = record {
    new = called op q ok ∷ [];
    added = refl;
    fits = ground arith;
    returns = ground arith;
  }

  copy_chunks-Works :
      (cs : List Chunk) (log : Log) → Copies true log (copy_chunks k cb src dst cs log)
  unfolding copy_chunks
  copy_chunks-Works [] log = Works-none fits true log
  copy_chunks-Works (broken ∷ cs) log = one log read src false (reads read false refl)
  copy_chunks-Works (bytes written ∷ cs) log =
      let got = one log read src true (reads read true refl) in
      elim (Bool-cases (is_cancelled k cb log)) [
        | inl e ↦ rw e (record {
          new = cancelled dst ∷ called read src true ∷ [];
          added = refl;
          fits = ground (arith, stops_dst, reads read true refl);
          returns = refl;
        })
        | inr e ↦ elim (Bool-cases written) [
          | inl e' ↦
              let log' = called write dst true ∷ called read src true ∷ log in
              rw (e, e')
                (Works-trans fits true log (true, log') _
                  (Works-call fits true log (true, called read src true ∷ log) write dst true
                    (writes write true refl) got)
                  (copy_chunks-Works cs log'))
          | inr e' ↦
              rw (e, e')
                (Works-call fits true log (true, called read src true ∷ log) write dst false
                  (writes write false refl) got)
        ]
      ]

  cleaned-Works :
      (log : Log) (r : Bool × Log) → Copies true log r → Copies true log (cleaned k cb dst r)
  cleaned-Works log r w = elim (Bool-cases (not r.0 && is_cancelled k cb r.1)) [
    | inr e ↦ rw e w
    | inl e ↦
        let ok = k.succeeds r.1 unlink dst in
        let w' = Works-call fits true log r unlink dst ok (writes unlink ok refl) w in
        rw e (record {
          new = w'.new;
          added = w'.added;
          fits = w'.fits;
          returns = ground (arith, w'.returns);
        })
  ]

  copy_created-Works :
      (chunks : List Chunk) (log : Log) (ok : Bool)
      → Copies true log (copy_created k cb src dst chunks (ok, called create dst ok ∷ log))
  copy_created-Works chunks log false = one log create dst false (writes create false refl)
  copy_created-Works chunks log true =
      let log' = called create dst true ∷ log in
      Works-trans fits true log (true, log') _ (one log create dst true (writes create true refl))
        (cleaned-Works log' (copy_chunks k cb src dst chunks log') (copy_chunks-Works chunks log'))

  copy_file-Works :
      (log : Log) (o : Option (List Chunk)) → Copies true log (copy_opened k cb src dst log o)
  copy_file-Works log none = one log read src false (reads read false refl)
  copy_file-Works log (some chunks) = copy_created-Works chunks log (k.succeeds log create dst)

  symlinks :
      (log : Log) (q : Str) (ok : Bool) → is_beside dst q ≡ true → fits (called symlink q ok) ≡ true
  symlinks log q ok h = ground (arith, h)

  copy_link-WorksIn :
      (log : Log) (o : Option Str) → WorksIn fits true log (copy_link k cb src dst log o)
  copy_link-WorksIn log none = worked (one log readlink src false (reads readlink false refl))
  copy_link-WorksIn log (some target) =
      let log' = called readlink src true ∷ log in
      let free = free_name k cb dst log' in
      let (w, p) = free_name-Named k cb dst log' in
      let ok = k.succeeds free.1 symlink free.0 in
      worked (
        Works-call fits true log (true, free.1) symlink free.0 ok
          (symlinks log free.0 ok (Place-is_beside dst free.0 p))
          (Works-trans fits true log (true, log') (true, free.1)
            (one log readlink src true (reads readlink true refl))
            (Works-le (looks dst) fits true log' (true, free.1) (looks-copies src dst) w)))

  module _ (enter : Str → Log → Result)
      (enters : (name : Str) (log : Log)
        → is_name name ≡ true
        → WorksIn fits true log (enter name log)) where
    copy_dir-WorksIn :
        (log : Log) (o : Option (List Str))
        → ((names : List Str) → o ≡ some names → all is_name names ≡ true)
        → WorksIn fits true log (copy_dir k cb enter src log o)
    unfolding copy_dir
    copy_dir-WorksIn log none h = worked (one log opendir src false (reads opendir false refl))
    copy_dir-WorksIn log (some names) h =
        let log' = called opendir src true ∷ log in
        WorksIn-trans fits true log (true, log')
          (one log opendir src true (reads opendir true refl))
          (for_entries-WorksIn k cb fits src is_name enter stops enters names true log'
            (h names refl))

    copy_made-WorksIn :
        (log : Log) (made : Bool) (o : Option (List Str))
        → ((names : List Str) → o ≡ some names → all is_name names ≡ true)
        → WorksIn fits true log (
            if made
            then copy_dir k cb enter src (called mkdir dst made ∷ log) o
            else some (false, called mkdir dst made ∷ log))
    copy_made-WorksIn log false o h = worked (one log mkdir dst false (writes mkdir false refl))
    copy_made-WorksIn log true o h =
        let log' = called mkdir dst true ∷ log in
        WorksIn-trans fits true log (true, log') (one log mkdir dst true (writes mkdir true refl))
          (copy_dir-WorksIn log' o h)

    copy_kind-WorksIn :
        (proper : (log : Log) (path : Str) (names : List Str)
          → k.entries log path ≡ some names
          → all is_name names ≡ true)
        (log : Log) (o : Option Kind)
        → WorksIn fits true log (copy_kind k cb enter src dst log o)
    unfolding copy_kind copy_file
    copy_kind-WorksIn proper log none = worked (one log lstat src false (reads lstat false refl))
    copy_kind-WorksIn proper log (some directory) =
        let log' = called lstat src true ∷ log in
        let made = k.succeeds log' mkdir dst in
        let log2 = called mkdir dst made ∷ log' in
        WorksIn-trans fits true log (true, log') (one log lstat src true (reads lstat true refl))
          (copy_made-WorksIn log' made (k.entries log2 src) (proper log2 src))
    copy_kind-WorksIn proper log (some link) =
        let log' = called lstat src true ∷ log in
        WorksIn-trans fits true log (true, log') (one log lstat src true (reads lstat true refl))
          (copy_link-WorksIn log' (k.link_target log' src))
    copy_kind-WorksIn proper log (some other) =
        let log' = called lstat src true ∷ log in
        WorksIn-trans fits true log (true, log') (one log lstat src true (reads lstat true refl))
          (worked (copy_file-Works log' (k.contents log' src)))

-- The names of a directory, as readdir(3) gives them, hold no '/'.
abbrev pub HasNames : Kernel → Type 0
HasNames k =
    (log : Log) (path : Str) (names : List Str)
    → k.entries log path ≡ some names
    → all is_name names ≡ true

module _ (k : Kernel) (cb : Bool) (proper : HasNames k) where
  entry-WorksIn :
      (enter : (src dst : Str) → Log → Result)
      → ((src dst : Str) (log : Log) → WorksIn (copies src dst) true log (enter src dst log))
      → (src dst name : Str) (log : Log) → is_name name ≡ true
      → WorksIn (copies src dst) true log (
          enter
            (child src name)
            (free_name k cb (child dst name) log).0
            (free_name k cb (child dst name) log).1)
  entry-WorksIn enter enters src dst name log h =
      let free = free_name k cb (child dst name) log in
      let (w, p) = free_name-Named k cb (child dst name) log in
      let (name', e, h') = Place-child dst name free.0 h p in
      WorksIn-trans (copies src dst) true log (true, free.1)
        (Works-le (looks (child dst name)) (copies src dst) true log (true, free.1)
          (looks-child src dst name h) w)
        (rw e (
          WorksIn-le (copies (child src name) (child dst name')) (copies src dst) true free.1
            (copies-child src dst name name' h')
            (enters (child src name) (child dst name') free.1)))

  pub copy_recursive-WorksIn :
      (depth : ℕ) (src dst : Str) (log : Log)
      → WorksIn (copies src dst) true log (copy_recursive k cb depth src dst log)
  unfolding copy_recursive copy_level
  copy_recursive-WorksIn zero src dst log = deep
  copy_recursive-WorksIn (suc depth) src dst log = elim (Bool-cases (is_cancelled k cb log)) [
    | inl e ↦ rw e (
        worked (record {
          new = cancelled src ∷ [];
          added = refl;
          fits = ground (arith, is_below_refl src);
          returns = refl;
        }))
    | inr e ↦ rw e (
        copy_kind-WorksIn k cb src dst _
          (λ name l h.
            entry-WorksIn (copy_recursive k cb depth) (copy_recursive-WorksIn depth) src dst name l
              h)
          proper log (k.kind_of log src))
  ]
