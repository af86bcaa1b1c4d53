-- ===== src/Wm/Focus/Keeps.antt =====
-- What a change of the focus leaves alone: the grid, and every property of clients that does not speak of
-- the focus.
use isde.Common.{ℕ, suc, ◌≡◌, refl, List, Option, none, some, arith}
use isde.Wm.Client.{Client, Wm}
use isde.Wm.Client.Each.{Each, Each-update}
use isde.Wm.Focus.{redirected, unfocused, focused_with, leave, focus_on, focus_client}

pub record SameGrid (u w : Wm) : Type 0 where
  pub rows : u.desk_rows ≡ w.desk_rows
  pub cols : u.desk_cols ≡ w.desk_cols
  pub num : u.num_desktops ≡ w.num_desktops
  pub current : u.current_desktop ≡ w.current_desktop

focus_on-SameGrid : (i : Option ℕ) (w : Wm) → SameGrid (focus_on i w) w
unfolding focus_on
focus_on-SameGrid none w = record { rows = refl; cols = refl; num = refl; current = refl }
focus_on-SameGrid (some i) w = record { rows = refl; cols = refl; num = refl; current = refl }

pub focus_client-SameGrid : (i : Option ℕ) (w : Wm) → SameGrid (focus_client i w) w
unfolding focus_client
focus_client-SameGrid none w = focus_on-SameGrid none w
focus_client-SameGrid (some i) w = focus_on-SameGrid (some (redirected i w.clients)) w

-- A property that the focus does not touch.
pub record IsFocusFree (P : Client → Type 0) : Type 0 where
  pub off : (c : Client) → P c → P (unfocused c)
  pub on : (seq : ℕ) (c : Client) → P c → P (focused_with seq c)

module _ (P : Client → Type 0) (free : IsFocusFree P) where
  leave-Each : (prev i : Option ℕ) (cs : List Client) → Each P cs → Each P (leave prev i cs)
  unfolding leave
  leave-Each none i cs v = v
  leave-Each (some p) none cs v = Each-update P p unfocused free.off cs v
  leave-Each (some p) (some i) cs v = ground (arith, Each-update P p unfocused free.off cs v)

  focus_on-Each : (i : Option ℕ) (w : Wm) → Each P w.clients → Each P (focus_on i w).clients
  unfolding focus_on
  focus_on-Each none w v = leave-Each w.focused none w.clients v
  focus_on-Each (some i) w v =
      Each-update P i (focused_with (suc w.focus_seq)) (free.on (suc w.focus_seq))
        (leave w.focused (some i) w.clients) (leave-Each w.focused (some i) w.clients v)

  pub focus_client-Each :
      (i : Option ℕ) (w : Wm) → Each P w.clients → Each P (focus_client i w).clients
  unfolding focus_client
  focus_client-Each none w v = focus_on-Each none w v
  focus_client-Each (some i) w v = focus_on-Each (some (redirected i w.clients)) w v
