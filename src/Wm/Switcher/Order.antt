-- ===== src/Wm/Switcher/Order.antt =====
-- The list of the switcher holds the windows of the desktop, the last focused first.
use isde.Common.{
  ℕ, ◌≤◌, ◌≡◌, refl, Bool, ◌&&◌, ◌||◌, if◌then◌else◌, List, [], ◌∷◌, arith, ltb, Bool-cases, inl,
  inr, ◌==◌,
}
use mathlib.Core.List.{Permᴰ}
use mathlib.Core.List.Permᴰ
use isde.Wm.Client.{Client, Wm, all_desktops}
use isde.Wm.Client.Each.{Each}
use isde.Wm.Switcher.{candidates, insert_mru, sort_mru, build_order}

abbrev pub IsDescending : List Client → Type 0
IsDescending [] = Unit {0}
IsDescending (c ∷ cs) = Each (λ d. d.focus_seq ≤ c.focus_seq) cs × IsDescending cs

insert-Each :
    (P : Client → Type 0) (c : Client) (cs : List Client)
    → P c
    → Each P cs
    → Each P (insert_mru c cs)
unfolding insert_mru
insert-Each P c [] h v = (h, tt)
insert-Each P c (d ∷ ds) h v = ground (arith, h, insert-Each P c ds h v.1)

Each-below :
    (n m : ℕ) (cs : List Client)
    → n ≤ m
    → Each (λ d. d.focus_seq ≤ n) cs
    → Each (λ d. d.focus_seq ≤ m) cs
Each-below n m [] h v = tt
Each-below n m (c ∷ cs) h v = (omega (arith, v.0), Each-below n m cs h v.1)

insert-IsDescending :
    (c : Client) (cs : List Client) → IsDescending cs → IsDescending (insert_mru c cs)
unfolding insert_mru
insert-IsDescending c [] v = (tt, tt)
insert-IsDescending c (d ∷ ds) v = elim (Bool-cases (ltb c.focus_seq d.focus_seq)) [
  | inl older ↦ rw older (
    insert-Each (λ x. x.focus_seq ≤ d.focus_seq) c ds (ground arith) v.0,
    insert-IsDescending c ds v.1,
  )
  | inr newer ↦
      let above : d.focus_seq ≤ c.focus_seq = ground arith in
      rw newer ((above, Each-below d.focus_seq c.focus_seq ds above v.0), v)
]

insert-Perm : (c : Client) (cs : List Client) → Permᴰ (insert_mru c cs) (c ∷ cs)
unfolding insert_mru
insert-Perm c [] = Permᴰ.refl (c ∷ [])
insert-Perm c (d ∷ ds) = elim (Bool-cases (ltb c.focus_seq d.focus_seq)) [
  | inl older ↦ rw older (Permᴰ.trans (Permᴰ.cons refl (insert-Perm c ds)) (Permᴰ.swap refl refl))
  | inr newer ↦ rw newer (Permᴰ.refl (c ∷ d ∷ ds))
]

sort-IsDescending : (cs : List Client) → IsDescending (sort_mru cs)
unfolding sort_mru
sort-IsDescending [] = tt
sort-IsDescending (c ∷ cs) = insert-IsDescending c (sort_mru cs) (sort-IsDescending cs)

sort-Perm : (cs : List Client) → Permᴰ (sort_mru cs) cs
unfolding sort_mru
sort-Perm [] = Permᴰ.nil
sort-Perm (c ∷ cs) = Permᴰ.trans (insert-Perm c (sort_mru cs)) (Permᴰ.cons refl (sort-Perm cs))

-- A window is listed when it is no dialog and stands on the current desktop or on all.
abbrev pub is_listed : (current : ℕ) → Client → Bool
is_listed current c =
    (c.transient_for == 0) && ((c.desktop == current) || (c.desktop == all_desktops))

abbrev pub listed : (current : ℕ) → List Client → List Client
listed current [] = []
listed current (c ∷ cs) =
    let rest = listed current cs in if is_listed current c then c ∷ rest else rest

candidates-listed : (d : ℕ) (cs : List Client) → candidates d cs ≡ listed d cs
unfolding candidates
candidates-listed d [] = refl
candidates-listed d (c ∷ cs) = ground (arith, candidates-listed d cs)

-- The list of the switcher runs from the last focused window to the first, and holds, each once, all the
-- windows that are no dialogs and stand on the current desktop or on all desktops, and no others.
pub build_order-IsDescending :
    (w : Wm)
    → IsDescending (build_order w) × Permᴰ (build_order w) (listed w.current_desktop w.clients)
unfolding build_order
build_order-IsDescending w = (
  sort-IsDescending (candidates w.current_desktop w.clients),
  rw (← candidates-listed w.current_desktop w.clients)
      (sort-Perm (candidates w.current_desktop w.clients)),
)
