-- ===== src/Fm/History/Valid.antt =====
-- The history while it is not full.
use isde.Common.{
  ℕ, zero, suc, ◌<◌, ◌≤◌, ◌≡◌, refl, ltb, Bool, true, false, List, [], ◌∷◌, ◌++◌, none, some, Str,
  length, take, length-take, length-append, get_elem?, arith,
}
use isde.Fm.History.{history_max, Fm, opened_at, navigate, visit, go_back, navigate_history, back}

-- The position is an entry that is set, and that is the current directory.
pub record IsHistory (fm : Fm) : Type 0 where
  pub at : get_elem? fm.history fm.hist_pos ≡ some fm.cwd
  pub bounded : length fm.history ≤ history_max

pub opened_at-IsHistory : (start : Str) → IsHistory (opened_at start)
unfolding opened_at
opened_at-IsHistory start = record { at = refl; bounded = omega arith }

module _ {A : Type 0} where
  pub get_elem?-length : (xs : List A) (i : ℕ) (a : A) → get_elem? xs i ≡ some a → i < length xs
  get_elem?-length [] i a h = cc
  get_elem?-length (x ∷ xs) zero a h = omega arith
  get_elem?-length (x ∷ xs) (suc i) a h = omega (arith, get_elem?-length xs i a h)

  pub get_elem?-beyond : (xs : List A) (i : ℕ) → length xs ≤ i → get_elem? xs i ≡ none
  get_elem?-beyond [] i h = refl
  get_elem?-beyond (x ∷ xs) zero h = absurd (omega arith)
  get_elem?-beyond (x ∷ xs) (suc i) h = get_elem?-beyond xs i (omega arith)

  pub get_elem?-end :
      (xs : List A) (n : ℕ) (a : A) → n ≤ length xs → get_elem? (take n xs ++ a ∷ []) n ≡ some a
  get_elem?-end xs zero a h = refl
  get_elem?-end [] (suc n) a h = absurd (omega arith)
  get_elem?-end (x ∷ xs) (suc n) a h = get_elem?-end xs n a (omega arith)

  pub get_elem?-front :
      (xs : List A) (n i : ℕ) (ys : List A)
      → i < n
      → n ≤ length xs
      → get_elem? (take n xs ++ ys) i ≡ get_elem? xs i
  get_elem?-front xs zero i ys h k = absurd (omega arith)
  get_elem?-front [] (suc n) i ys h k = absurd (omega arith)
  get_elem?-front (x ∷ xs) (suc n) zero ys h k = refl
  get_elem?-front (x ∷ xs) (suc n) (suc i) ys h k =
      get_elem?-front xs n i ys (omega arith) (omega arith)

-- While the history has room behind the position, `fm_navigate` keeps it valid.
pub navigate-IsHistory :
    (readable : Bool) (path : Str) (fm : Fm)
    → suc fm.hist_pos < history_max
    → IsHistory fm
    → IsHistory (navigate readable path fm)
unfolding navigate
navigate-IsHistory false path fm room v = v
navigate-IsHistory true path fm room v =
    let inside = get_elem?-length fm.history fm.hist_pos fm.cwd v.at in
    let fresh : ltb (suc fm.hist_pos) history_max ≡ true = ground arith in
    record {
      at = rw fresh (get_elem?-end fm.history (suc fm.hist_pos) path (omega arith));
      bounded = rw fresh (
          omega (
            arith,
            length-append (take (suc fm.hist_pos) fm.history) (path ∷ []),
            length-take (suc fm.hist_pos) fm.history,
          ));
    }

-- On a valid history with room behind the position, Back after the visit of a directory that can be
-- read leads to the directory and the position from before, by the key and by the button.
pub go_back-navigate :
    (path : Str) (fm : Fm)
    → suc fm.hist_pos < history_max
    → IsHistory fm
    → (go_back (navigate true path fm)
        ≡ some (record fm { history = take (suc fm.hist_pos) fm.history ++ path ∷ [] }))
      × (back (navigate true path fm) ≡ go_back (navigate true path fm))
unfolding go_back back navigate navigate_history visit
go_back-navigate path fm room v =
    let inside = get_elem?-length fm.history fm.hist_pos fm.cwd v.at in
    let fresh : ltb (suc fm.hist_pos) history_max ≡ true = ground arith in
    let before =
      get_elem?-front fm.history (suc fm.hist_pos) fm.hist_pos (path ∷ []) (omega arith)
        (omega arith) in
    let size = length-append (take (suc fm.hist_pos) fm.history) (path ∷ []) in
    let taken = length-take (suc fm.hist_pos) fm.history in
    (ground (arith, before, v.at), ground (arith, before, v.at, size, taken))
