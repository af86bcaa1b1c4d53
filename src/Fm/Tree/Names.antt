-- ===== src/Fm/Tree/Names.antt =====
-- The free name of an entry stands in the directory of the entry.
use mathlib.Core.List.{append_assoc}
use isde.Common.{
  ◌⊎◌, Bool-cases, inl, inr, is_some, ap, sym, Option, none, some, zero, suc, false, ◌∙◌, ℕ, ◌≡◌,
  refl, Bool, true, not, [], ◌∷◌, ◌++◌, Str, codes, arith,
}
use isde.Common.Distinct.{mem, mem-append}
use isde.Fm.Jobs.Exec.{base_of}
use isde.Fm.Conflict.{dir_of, name_of, ext_of, decimal, candidate, first_free, resolve_conflict}
use isde.Fm.Conflict.Free.{dir-base}
use isde.Fm.Tree.{Event, called, cancelled, asked, Log, Kernel, child, first_name, free_name}
use isde.Fm.Tree.Works.{Works, Works-none, Works-trans}
use isde.Fm.Tree.Delete.{behind-below}
use isde.Common.Stdio.{behind}

-- A name as readdir(3) gives it.
abbrev pub is_name : Str → Bool
is_name name = not (mem 47 name)

mem-slash : (path r : Str) → mem 47 (path ++ 47 ∷ r) ≡ true
mem-slash path r = mem-append 47 path (47 ∷ r) ∙ ground arith

pub dir_of-child :
    (path name : Str) → is_name name ≡ true → dir_of (child path name) ≡ path ++ 47 ∷ []
dir_of-child [] name h = ground arith
dir_of-child (c ∷ path) name h = ground (arith, dir_of-child path name h, mem-slash path name)

base_of-child : (path name : Str) → is_name name ≡ true → base_of (child path name) ≡ name
base_of-child [] name h = ground arith
base_of-child (c ∷ path) name h = ground (arith, base_of-child path name h, mem-slash path name)

name_of-is_name : (base : Str) → is_name base ≡ true → is_name (name_of base) ≡ true
name_of-is_name [] h = refl
name_of-is_name (c ∷ s) h = ground (arith, name_of-is_name s)

ext_of-is_name : (base : Str) → is_name base ≡ true → is_name (ext_of base) ≡ true
ext_of-is_name [] h = refl
ext_of-is_name (c ∷ s) h = ground (arith, ext_of-is_name s)

decimal-is_name : (i : ℕ) → is_name (decimal i) ≡ true
unfolding decimal
decimal-is_name i = ground arith

-- What the number makes of a name.
abbrev pub numbered_name : Str → ℕ → Str
numbered_name name i = name_of name ++ (codes " (" ++ (decimal i ++ (codes ")" ++ ext_of name)))

numbered_name-is_name :
    (name : Str) (i : ℕ) → is_name name ≡ true → is_name (numbered_name name i) ≡ true
numbered_name-is_name name i h = ground (
  arith,
  mem-append 47 (name_of name) (codes " (" ++ (decimal i ++ (codes ")" ++ ext_of name))),
  mem-append 47 (decimal i) (codes ")" ++ ext_of name),
  name_of-is_name name h,
  decimal-is_name i,
  ext_of-is_name name h,
)

candidate-child :
    (path name : Str) (i : ℕ)
    → is_name name ≡ true
    → candidate (child path name) i ≡ child path (numbered_name name i)
unfolding candidate
candidate-child path name i h =
    rw (dir_of-child path name h, base_of-child path name h)
      (append_assoc path (47 ∷ []) (numbered_name name i))

base_of-is_name : (path : Str) → is_name (base_of path) ≡ true
base_of-is_name [] = refl
base_of-is_name (c ∷ s) = ground (arith, base_of-is_name s)

abbrev pub in_directory : Option Str → Bool
in_directory none = false
in_directory (some rest) = is_name rest

-- In the directory of a path.
abbrev pub is_beside : (path q : Str) → Bool
is_beside path q = in_directory (behind (dir_of path) q)

pub beside-below :
    (dir q : Str) → in_directory (behind dir q) ≡ true → is_some (behind dir q) ≡ true
beside-below dir q h = go (behind dir q) h
  where
    go : (o : Option Str) → in_directory o ≡ true → is_some o ≡ true
    go none h = cc
    go (some rest) h = refl

-- What `resolve_conflict` may give: the path itself, or a numbered name.
abbrev pub Place : (dst q : Str) → Type 0
Place dst q = (q ≡ dst) ⊎ ((i : ℕ) × (q ≡ candidate dst i))

pub Place-child :
    (path name q : Str)
    → is_name name ≡ true
    → Place (child path name) q
    → (name' : Str) × (q ≡ child path name') × (is_name name' ≡ true)
Place-child path name q h (inl e) = (name, e, h)
Place-child path name q h (inr (i, e)) =
    (numbered_name name i, e ∙ candidate-child path name i h, numbered_name-is_name name i h)

self-is_beside : (dst : Str) → is_beside dst dst ≡ true
self-is_beside dst =
    ap (λ q. in_directory (behind (dir_of dst) q)) (sym (dir-base dst))
    ∙ ap in_directory (behind-below (dir_of dst) (base_of dst))
    ∙ base_of-is_name dst

pub Place-is_beside : (dst q : Str) → Place dst q → is_beside dst q ≡ true
unfolding candidate
Place-is_beside dst q (inl e) = rw e (self-is_beside dst)
Place-is_beside dst q (inr (i, e)) = rw e (
    ap in_directory (behind-below (dir_of dst) (numbered_name (base_of dst) i))
    ∙ numbered_name-is_name (base_of dst) i (base_of-is_name dst))

-- The questions that are asked on the way.
abbrev pub looks : (dst : Str) → Event → Bool
looks dst (asked q taken) = is_beside dst q
looks dst (called op q ok) = false
looks dst (cancelled q) = false

abbrev Named : (dst : Str) → Log → Str × Log → Type 0
Named dst log r = Works (looks dst) true log (true, r.1) × Place dst r.0

module _ (k : Kernel) (cb : Bool) where
  look :
      (dst q : Str) (taken : Bool) (log : Log)
      → Place dst q
      → Works (looks dst) true log (true, asked q taken ∷ log)
  look dst q taken log p = record {
    new = asked q taken ∷ [];
    added = refl;
    fits = ground (arith, Place-is_beside dst q p);
    returns = refl;
  }

  first_name-Named : (n i : ℕ) (dst : Str) (log : Log) → Named dst log (first_name k cb n i dst log)
  unfolding first_name
  first_name-Named zero i dst log = (Works-none (looks dst) true log, inl refl)
  first_name-Named (suc n) i dst log =
      let q = candidate dst i in
      let here : Place dst q = inr (i, refl) in
      elim (Bool-cases (is_some (k.kind_of log q))) [
        | inl e ↦
            let log' = asked q true ∷ log in
            let (w, p) = first_name-Named n (suc i) dst log' in
            rw e (Works-trans (looks dst) true log (true, log') _ (look dst q true log here) w, p)
        | inr e ↦ rw e (look dst q false log here, here)
      ]

  pub free_name-Named : (dst : Str) (log : Log) → Named dst log (free_name k cb dst log)
  unfolding free_name
  free_name-Named dst log = elim (Bool-cases (is_some (k.kind_of log dst))) [
    | inl e ↦
        let log' = asked dst true ∷ log in
        let (w, p) = first_name-Named 998 2 dst log' in
        rw e
          (Works-trans (looks dst) true log (true, log') _ (look dst dst true log (inl refl)) w, p)
    | inr e ↦ rw e (look dst dst false log (inl refl), inl refl)
  ]

-- On a kernel that answers as `taken` says whenever it is asked, the name is the one of Fm/Conflict.
module _ (k : Kernel) (cb : Bool) (taken : Str → Bool)
    (still : (log : Log) (q : Str) → is_some (k.kind_of log q) ≡ taken q) where
  first_name-first_free :
      (n i : ℕ) (dst : Str) (log : Log) → (first_name k cb n i dst log).0 ≡ first_free taken n i dst
  unfolding first_name first_free
  first_name-first_free zero i dst log = refl
  first_name-first_free (suc n) i dst log = elim (Bool-cases (taken (candidate dst i))) [
    | inl e ↦
        rw (still log (candidate dst i), e)
          (first_name-first_free n (suc i) dst (asked (candidate dst i) true ∷ log))
    | inr e ↦ rw (still log (candidate dst i), e) refl
  ]

  free_name-resolve_conflict :
      (dst : Str) (log : Log) → (free_name k cb dst log).0 ≡ resolve_conflict taken dst
  unfolding free_name resolve_conflict
  free_name-resolve_conflict dst log = elim (Bool-cases (taken dst)) [
    | inl e ↦ rw (still log dst, e) (first_name-first_free 998 2 dst (asked dst true ∷ log))
    | inr e ↦ rw (still log dst, e) refl
  ]
