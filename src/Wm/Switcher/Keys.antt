-- ===== src/Wm/Switcher/Keys.antt =====
-- The selection of the switcher over every sequence of keys.
use isde.Common.{length-map, ◌==◌, ◌≡◌, ◌&&◌, not, leb, Bool, false, List, [], ◌∷◌, length, arith}
use isde.Wm.Client.{Client}
use isde.Wm.Switcher.{
  Switcher, build_order, closed, next, prev, show, commit, cancel, Key, tab, shift_tab, escape,
  alt_released, press, press_all,
}

-- An open switcher has a selection in its list; a closed one has no list.
pub record IsSwitcher (s : Switcher) : Type 0 where
  pub in_range : (s.active && leb (length s.order) s.sel) ≡ false
  pub no_order : (not s.active && not (length s.order == 0)) ≡ false

next-IsSwitcher : (s : Switcher) → IsSwitcher s → IsSwitcher (next s)
unfolding next
next-IsSwitcher s v = ground (arith, v.in_range, v.no_order)

prev-IsSwitcher : (s : Switcher) → IsSwitcher s → IsSwitcher (prev s)
unfolding prev
prev-IsSwitcher s v = ground (arith, v.in_range, v.no_order)

show-IsSwitcher : (grabbed : Bool) (s : Switcher) → IsSwitcher s → IsSwitcher (show grabbed s)
unfolding show
show-IsSwitcher grabbed s v =
    ground (arith, next-IsSwitcher s v, length-map (build_order s.wm) (λ (c : Client). c.client))

press-IsSwitcher : (k : Key) (s : Switcher) → IsSwitcher s → IsSwitcher (press k s)
unfolding press cancel commit closed
press-IsSwitcher (tab grabbed) s v =
    ground (arith, next-IsSwitcher s v, show-IsSwitcher grabbed s v)
press-IsSwitcher (shift_tab grabbed) s v =
    ground (arith, prev-IsSwitcher s v, show-IsSwitcher grabbed s v)
press-IsSwitcher escape s v = ground (arith, v.in_range, v.no_order)
press-IsSwitcher alt_released s v = ground (arith, v.in_range, v.no_order)

-- Whatever keys are pressed: if it held before, an open switcher has its selection inside its list, and a
-- closed one has no list.
pub press_all-IsSwitcher :
    (ks : List Key) (s : Switcher) → IsSwitcher s → IsSwitcher (press_all ks s)
unfolding press_all
press_all-IsSwitcher [] s v = v
press_all-IsSwitcher (k ∷ ks) s v = press_all-IsSwitcher ks (press k s) (press-IsSwitcher k s v)

-- On a switcher whose selection is in range, a step forward and a step back undo each other, in either
-- order and across the ends of the list.
pub next-prev :
    (s : Switcher) → IsSwitcher s → ((next (prev s)).sel ≡ s.sel) × ((prev (next s)).sel ≡ s.sel)
unfolding next prev
next-prev s v = ground (arith, v.in_range)
