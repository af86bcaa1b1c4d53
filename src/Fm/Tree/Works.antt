-- ===== src/Fm/Tree/Works.antt =====
-- Functions that add calls to the log, of a kind that is allowed, and return 0 exactly when all of them succeed.
use mathlib.Core.List.{append_assoc}
use isde.Common.{
  ap, sym, ◌∙◌, ◌≡◌, refl, ◌==◌, Bool, true, false, not, ◌&&◌, ◌||◌, List, [], ◌∷◌, ◌++◌, Option,
  none, some, Str, all, all-append, Bool-cases, inl, inr, ◌>>=◌, arith,
}
use isde.Common.Stdio.{behind}
use isde.Fm.Tree.{
  FileOp, Event, called, cancelled, asked, Log, Kernel, Result, is_dot, is_cancelled, for_entries,
}

-- The path itself, or one below it.
abbrev pub ends_or_slash : Option Str → Bool
ends_or_slash none = false
ends_or_slash (some []) = true
ends_or_slash (some (c ∷ s)) = c == 47

abbrev pub is_below : (path q : Str) → Bool
is_below path q = ends_or_slash (behind path q)

abbrev pub path_of : Event → Str
path_of (called op path ok) = path
path_of (cancelled path) = path
path_of (asked path taken) = path

abbrev pub is_ok : Event → Bool
is_ok (called op path ok) = ok
is_ok (cancelled path) = false
is_ok (asked path taken) = true

abbrev pub all_below : Str → Log → Bool
all_below path log = all (λ e. is_below path (path_of e)) log

-- From a return value so far, `new` calls are added, all of them allowed.
pub record Works (allowed : Event → Bool) (ret : Bool) (log : Log) (r : Bool × Log) : Type 0 where
  pub new : Log
  pub added : r.1 ≡ new ++ log
  pub fits : all allowed new ≡ true
  pub returns : r.0 ≡ (ret && all is_ok new)

pub data WorksIn (allowed : Event → Bool) (ret : Bool) (log : Log) : Result → Type 0 where
  deep : WorksIn allowed ret log none
  worked : {r : Bool × Log} → Works allowed ret log r → WorksIn allowed ret log (some r)

module _ (allowed : Event → Bool) where
  pub Works-none : (ret : Bool) (log : Log) → Works allowed ret log (ret, log)
  Works-none ret log = record { new = []; added = refl; fits = refl; returns = ground arith }

  -- One more call behind the others.
  pub Works-call :
      (ret : Bool) (log : Log) (r : Bool × Log) (op : FileOp) (path : Str) (ok : Bool)
      → allowed (called op path ok) ≡ true
      → Works allowed ret log r
      → Works allowed ret log (r.0 && ok, called op path ok ∷ r.1)
  Works-call ret log r op path ok h w = record {
    new = called op path ok ∷ w.new;
    added = ap (λ l. called op path ok ∷ l) w.added;
    fits = ground (arith, w.fits);
    returns = ground (arith, w.returns);
  }

  pub Works-stop :
      (log : Log) (r : Bool × Log) (path : Str)
      → allowed (cancelled path) ≡ true
      → Works allowed true log r
      → Works allowed true log (false, cancelled path ∷ r.1)
  Works-stop log r path h w = record {
    new = cancelled path ∷ w.new;
    added = ap (λ l. cancelled path ∷ l) w.added;
    fits = ground (arith, w.fits);
    returns = refl;
  }

  pub Works-trans :
      (ret : Bool) (log : Log) (r r' : Bool × Log)
      → Works allowed ret log r
      → Works allowed r.0 r.1 r'
      → Works allowed ret log r'
  Works-trans ret log r r' w w' = record {
    new = w'.new ++ w.new;
    added = w'.added ∙ ap (λ l. w'.new ++ l) w.added ∙ sym (append_assoc w'.new w.new log);
    fits = ground (arith, all-append allowed w'.new w.new, w.fits, w'.fits);
    returns = ground (arith, all-append is_ok w'.new w.new, w.returns, w'.returns);
  }

  -- A function that returns its own value, behind a value so far.
  pub Works-and :
      (ret : Bool) (log : Log) (r : Bool × Log)
      → Works allowed true log r
      → Works allowed ret log (ret && r.0, r.1)
  Works-and ret log r w = record {
    new = w.new;
    added = w.added;
    fits = w.fits;
    returns = ground (arith, w.returns);
  }

pub WorksIn-trans :
    (allowed : Event → Bool) (ret : Bool) (log : Log) (r : Bool × Log) {o : Result}
    → Works allowed ret log r
    → WorksIn allowed r.0 r.1 o
    → WorksIn allowed ret log o
WorksIn-trans allowed ret log r w deep = deep
WorksIn-trans allowed ret log r w (worked {r = r'} w') =
    worked (Works-trans allowed ret log r r' w w')

pub all-le :
    (allowed allowed' : Event → Bool)
    → ((e : Event) → (not (allowed e) || allowed' e) ≡ true)
    → (log : Log) → all allowed log ≡ true
    → all allowed' log ≡ true
all-le allowed allowed' h [] b = refl
all-le allowed allowed' h (e ∷ log) b =
    ground (arith, h e, all-le allowed allowed' h log (ground arith))

pub Works-le :
    (allowed allowed' : Event → Bool) (ret : Bool) (log : Log) (r : Bool × Log)
    → ((e : Event) → (not (allowed e) || allowed' e) ≡ true)
    → Works allowed ret log r
    → Works allowed' ret log r
Works-le allowed allowed' ret log r h w = record {
  new = w.new;
  added = w.added;
  fits = all-le allowed allowed' h w.new w.fits;
  returns = w.returns;
}

pub WorksIn-le :
    (allowed allowed' : Event → Bool) (ret : Bool) (log : Log) {r : Result}
    → ((e : Event) → (not (allowed e) || allowed' e) ≡ true)
    → WorksIn allowed ret log r
    → WorksIn allowed' ret log r
WorksIn-le allowed allowed' ret log h deep = deep
WorksIn-le allowed allowed' ret log h (worked {r} w) =
    worked (Works-le allowed allowed' ret log r h w)

-- The loop over the entries.
module _ (k : Kernel) (cb : Bool) (allowed : Event → Bool) (path : Str) (proper : Str → Bool)
    (body : Str → Log → Result) (stops : allowed (cancelled path) ≡ true)
    (bodies : (name : Str) (log : Log)
      → proper name ≡ true
      → WorksIn allowed true log (body name log)) where
  pub for_entries-WorksIn :
      (names : List Str) (ret : Bool) (log : Log)
      → all proper names ≡ true
      → WorksIn allowed ret log (for_entries k cb body path names ret log)
  unfolding for_entries
  for_entries-WorksIn [] ret log h = worked (Works-none allowed ret log)
  for_entries-WorksIn (name ∷ names) ret log h = elim (Bool-cases (is_dot name)) [
    | inl e ↦ rw e (for_entries-WorksIn names ret log (ground arith))
    | inr e ↦ elim (Bool-cases (is_cancelled k cb log)) [
      | inl e' ↦
          rw (e, e')
            (worked (record {
              new = cancelled path ∷ [];
              added = refl;
              fits = ground arith;
              returns = ground arith;
            }))
      | inr e' ↦
          rw (e, e')
            (behind_entry (body name log) (bodies name log (ground arith))
              (λ ret' log'. for_entries-WorksIn names ret' log' (ground arith)))
    ]
  ]
    where
      behind_entry :
          (o : Result)
          → WorksIn allowed true log o
          → ((ret' : Bool) (log' : Log)
              → WorksIn allowed ret' log' (for_entries k cb body path names ret' log'))
          → WorksIn allowed ret log (o >>= λ r. for_entries k cb body path names (ret && r.0) r.1)
      behind_entry none w rest = deep
      behind_entry (some r) (worked w) rest =
          WorksIn-trans allowed ret log (ret && r.0, r.1) (Works-and allowed ret log r w)
            (rest (ret && r.0) r.1)
