-- ===== src/Wm/Desktops/Grid.antt =====
-- The invariant of the desktops: the grid, the desktop that is shown, and where each client stands.
use isde.Common.{
  ℕ, suc, ◌*◌, ◌^◌, ◌<◌, ◌==◌, ◌||◌, not, leb, ◌≡◌, refl, ◌⊎◌, inl, inr, Option, none, some, arith,
  Bool-cases,
}
use mathlib.Core.Option
use isde.Wm.Client.{Client, Wm, all_desktops, is_visible, find_client, update_client}
use isde.Wm.Client.Each.{Each, Each-sweep, Each-mono, Each-update, Each-Unit}
use isde.Wm.Focus.{unfocused, focus_client}
use isde.Wm.Focus.Keeps.{SameGrid, focus_client-SameGrid, IsFocusFree, focus_client-Each}
use isde.Wm.Desktops.{
  hide, show, sync_one, sync_visibility, pull_one, at_least_one, resized, announced, apply,
  int_product, one_less, switch_one, swapped, unfocus_found, drop_focus, most_recent, refocus,
  shown_osd, switch,
}

-- On a desktop of the grid or on all of them.
abbrev pub InRange : (num : ℕ) → Client → Type 0
InRange num c = (c.desktop < num) ⊎ (c.desktop ≡ all_desktops)

-- Such a client is hidden exactly when its desktop is not shown.
pub record IsPlaced (current num : ℕ) (c : Client) : Type 0 where
  pub in_range : InRange num c
  pub hidden : c.hidden ≡ not (is_visible current c)

pub record IsGrid (w : Wm) : Type 0 where
  pub size : w.num_desktops ≡ w.desk_rows * w.desk_cols
  pub current : w.current_desktop < w.num_desktops
  pub placed : Each (IsPlaced w.current_desktop w.num_desktops) w.clients

pub IsPlaced-IsFocusFree : (current num : ℕ) → IsFocusFree (IsPlaced current num)
IsPlaced-IsFocusFree current num = record {
  off = λ c p. record { in_range = p.in_range; hidden = p.hidden };
  on = λ seq c p. record { in_range = p.in_range; hidden = p.hidden };
}

pub same-IsGrid :
    (u w : Wm)
    → SameGrid u w
    → IsGrid w
    → Each (IsPlaced w.current_desktop w.num_desktops) u.clients
    → IsGrid u
same-IsGrid u w s v cs = record {
  size = rw (s.num, s.rows, s.cols) v.size;
  current = rw (s.num, s.current) v.current;
  placed = rw (s.num, s.current) cs;
}

pub focus_client-IsGrid : (i : Option ℕ) (w : Wm) → IsGrid w → IsGrid (focus_client i w)
focus_client-IsGrid i w v = same-IsGrid (focus_client i w) w (focus_client-SameGrid i w) v (
    focus_client-Each (IsPlaced w.current_desktop w.num_desktops)
      (IsPlaced-IsFocusFree w.current_desktop w.num_desktops) i w v.placed)

sync_one-IsPlaced :
    (current num : ℕ) (c : Client) → InRange num c → IsPlaced current num (sync_one current c).0
unfolding sync_one hide show
sync_one-IsPlaced current num c r = ground arith

pull_one-InRange : (last : ℕ) (c : Client) → Unit {0} → InRange (suc last) (pull_one last c).0
unfolding pull_one
pull_one-InRange last c u = ground arith

switch_one-IsPlaced :
    (old desktop num : ℕ) (c : Client)
    → IsPlaced old num c
    → IsPlaced desktop num (switch_one old desktop c).0
unfolding switch_one hide show
switch_one-IsPlaced old desktop num c p = ground arith

-- After `sync_visibility` every client is hidden or shown as it should be, whatever it was before.
sync_visibility-IsGrid :
    (w : Wm)
    → w.num_desktops ≡ w.desk_rows * w.desk_cols
    → w.current_desktop < w.num_desktops
    → Each (InRange w.num_desktops) w.clients
    → IsGrid (announced (sync_visibility w))
unfolding sync_visibility announced
sync_visibility-IsGrid w size current v = record {
  size = size;
  current = current;
  placed =
      Each-sweep (InRange w.num_desktops) (IsPlaced w.current_desktop w.num_desktops)
        (sync_one w.current_desktop) (sync_one-IsPlaced w.current_desktop w.num_desktops) w.clients
        w.requests v;
}

product_positive : (a b : ℕ) → 0 < a → 0 < b → 0 < a * b
product_positive a b h k = grind arith

int_product-fits : (r c : ℕ) → r * c < 2 ^ 31 → int_product r c ≡ r * c
unfolding int_product
int_product-fits r c h = omega arith

one_less-fits : (n : ℕ) → 0 < n → n < 2 ^ 31 → suc (one_less n) ≡ n
unfolding one_less
one_less-fits n h k = omega arith

applied-IsGrid :
    (r c : ℕ) (w : Wm)
    → 0 < r
    → 0 < c
    → r * c < 2 ^ 31
    → IsGrid (announced (sync_visibility (resized r c w)))
unfolding resized
applied-IsGrid r c w h k fits =
    let n = int_product r c in
    let size = int_product-fits r c fits in
    let positive : 0 < n = rw size (product_positive r c h k) in
    let last = one_less-fits n positive (rw size fits) in
    sync_visibility-IsGrid (resized r c w) size (ground (arith, positive, last)) (
      Each-mono (InRange (suc (one_less n))) (InRange n) (λ x i. rw (← last) i) _
        (Each-sweep (λ x. Unit {0}) (InRange (suc (one_less n))) (pull_one (one_less n))
          (pull_one-InRange (one_less n)) w.clients w.requests (Each-Unit w.clients)))

-- The grid has a number of desktops that fits an int; a number below 1 counts as 1.
abbrev pub FitsGrid : (rows cols : ℕ) → Type 0
FitsGrid rows cols = at_least_one rows * at_least_one cols < 2 ^ 31

-- `wm_desktops_apply` makes the invariant true from any state and for any two numbers whose product
-- fits an `int`: the number of desktops is that of the grid, the current one and that of each client is one of them, or the client is
-- on all, and each client is hidden exactly when its desktop is not shown.
pub apply-IsGrid : (rows cols : ℕ) (w : Wm) → FitsGrid rows cols → IsGrid (apply rows cols w)
unfolding apply
apply-IsGrid rows cols w fits =
    applied-IsGrid (at_least_one rows) (at_least_one cols) w (grind arith) (grind arith) fits

swapped-IsGrid :
    (desktop : ℕ) (w : Wm) → desktop < w.num_desktops → IsGrid w → IsGrid (swapped desktop w)
unfolding swapped
swapped-IsGrid desktop w h v = record {
  size = v.size;
  current = h;
  placed =
      Each-sweep (IsPlaced w.current_desktop w.num_desktops) (IsPlaced desktop w.num_desktops)
        (switch_one w.current_desktop desktop)
        (switch_one-IsPlaced w.current_desktop desktop w.num_desktops) w.clients _ v.placed;
}

unfocus_found-IsGrid :
    (desktop : ℕ) (o : Option Client) (w : Wm) → IsGrid w → IsGrid (unfocus_found desktop o w)
unfolding unfocus_found
unfocus_found-IsGrid desktop none w v = v
unfocus_found-IsGrid desktop (some c) w v = ground (arith, unfocus)
  where
    unfocus :
        IsGrid (record w { focused = none; clients = update_client c.client unfocused w.clients })
    unfocus =
        same-IsGrid
          (record w { focused = none; clients = update_client c.client unfocused w.clients }) w
          (record { rows = refl; cols = refl; num = refl; current = refl }) v
          (Each-update (IsPlaced w.current_desktop w.num_desktops) c.client unfocused
            (IsPlaced-IsFocusFree w.current_desktop w.num_desktops).off w.clients v.placed)

drop_focus-IsGrid :
    (desktop : ℕ) (o : Option ℕ) (w : Wm) → IsGrid w → IsGrid (drop_focus desktop o w)
unfolding drop_focus
drop_focus-IsGrid desktop none w v = v
drop_focus-IsGrid desktop (some i) w v = unfocus_found-IsGrid desktop (find_client i w.clients) w v

refocus-IsGrid : (desktop : ℕ) (w : Wm) → IsGrid w → IsGrid (refocus desktop w)
unfolding refocus
refocus-IsGrid desktop w v = ground (
  arith,
  focus_client-IsGrid (Option.map (λ c. c.client) (most_recent desktop none w.clients)) w v,
)

shown_osd-IsGrid : (w : Wm) → IsGrid w → IsGrid (shown_osd w)
unfolding shown_osd
shown_osd-IsGrid w v = record { size = v.size; current = v.current; placed = v.placed }

-- `wm_desktops_switch` keeps the invariant, for any desktop that is asked for.
pub switch-IsGrid : (desktop : ℕ) (w : Wm) → IsGrid w → IsGrid (switch desktop w)
unfolding switch
switch-IsGrid desktop w v =
    elim (Bool-cases (leb w.num_desktops desktop || desktop == w.current_desktop)) [
      | inl refused ↦ rw refused v
      | inr accepted ↦ rw accepted (
          shown_osd-IsGrid _ (
            refocus-IsGrid desktop _
              (drop_focus-IsGrid desktop _ _ (swapped-IsGrid desktop w (ground arith) v))))
    ]
