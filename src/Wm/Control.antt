-- ===== src/Wm/Control.antt =====
-- platform/X11/wm/src/wm.c: the requests of clients and of the user that reach desktops and focus, and the
-- invariant over every sequence of them.
use isde.Common.{ℕ, refl, inl, inr, List, [], ◌∷◌, Option, none, some}
use isde.Common.Int.{ℤ}
use isde.Wm.Client.{Client, Wm, all_desktops, find_client}
use isde.Wm.Focus.{focus_client}
use isde.Wm.Desktops.{switch, move, reload_poll, settings_changed}
use isde.Wm.Windows.{minimize_client, restore_client, move_to_desktop, request_desktop}
use isde.Wm.Desktops.Grid.{IsGrid, FitsGrid, switch-IsGrid, focus_client-IsGrid}
use isde.Wm.Desktops.Poll.{FitsLayout, move-IsGrid, reload_poll-IsGrid, settings_changed-IsGrid}
use isde.Wm.Windows.Grid.{
  minimize_client-IsGrid, restore_client-IsGrid, move_to_desktop-IsGrid, request_desktop-IsGrid,
}

pub data Command : Type 0 where
  -- _NET_CURRENT_DESKTOP, and the arrow keys
  show_desktop : ℕ → Command
  step_desktop : ℤ → ℤ → Command
  -- a window takes the focus, is minimised or restored
  focus minimize restore : ℕ → Command
  -- _NET_WM_STATE_STICKY goes on or off, and _NET_WM_DESKTOP
  stick unstick : ℕ → Command
  ask_desktop : ℕ → ℕ → Command
  -- the settings changed, and a poll of the layout that follows
  reload : Command
  poll : Option (ℕ × ℕ) → ℕ × ℕ → Command

-- `wm_find_client_by_window`, and nothing where it finds none.
with_client : Option Client → (Client → Wm → Wm) → Wm → Wm
with_client none f w = w
with_client (some c) f w = f c w

pub perform : Command → Wm → Wm
unfolding with_client
perform (show_desktop d) w = switch d w
perform (step_desktop dx dy) w = move dx dy w
perform (focus i) w =
    with_client (find_client i w.clients) (λ c v. focus_client (some c.client) v) w
perform (minimize i) w = with_client (find_client i w.clients) minimize_client w
perform (restore i) w = with_client (find_client i w.clients) restore_client w
perform (stick i) w =
    with_client (find_client i w.clients) (λ c v. move_to_desktop c all_desktops v) w
perform (unstick i) w =
    with_client (find_client i w.clients) (λ c v. move_to_desktop c w.current_desktop v) w
perform (ask_desktop i d) w = with_client (find_client i w.clients) (λ c v. request_desktop c d v) w
perform reload w = settings_changed w
perform (poll layout config) w = reload_poll layout config w

pub perform_all : List Command → Wm → Wm
perform_all [] w = w
perform_all (k ∷ ks) w = perform_all ks (perform k w)

with_client-IsGrid :
    (o : Option Client) (f : Client → Wm → Wm) (w : Wm)
    → ((c : Client) → IsGrid (f c w))
    → IsGrid w
    → IsGrid (with_client o f w)
unfolding with_client
with_client-IsGrid none f w h v = v
with_client-IsGrid (some c) f w h v = h c

-- Grids that are read have a number of desktops that fits an int.
abbrev pub Fits : Command → Type 0
Fits (poll layout config) = FitsLayout layout × FitsGrid config.0 config.1
Fits _ = Unit {0}

abbrev pub AllFit : List Command → Type 0
AllFit [] = Unit {0}
AllFit (k ∷ ks) = Fits k × AllFit ks

perform-IsGrid : (k : Command) (w : Wm) → Fits k → IsGrid w → IsGrid (perform k w)
unfolding perform
perform-IsGrid (show_desktop d) w f v = switch-IsGrid d w v
perform-IsGrid (step_desktop dx dy) w f v = move-IsGrid dx dy w v
perform-IsGrid (focus i) w f v =
    with_client-IsGrid (find_client i w.clients) _ w (λ c. focus_client-IsGrid (some c.client) w v)
      v
perform-IsGrid (minimize i) w f v =
    with_client-IsGrid (find_client i w.clients) _ w (λ c. minimize_client-IsGrid c w v) v
perform-IsGrid (restore i) w f v =
    with_client-IsGrid (find_client i w.clients) _ w (λ c. restore_client-IsGrid c w v) v
perform-IsGrid (stick i) w f v =
    with_client-IsGrid (find_client i w.clients) _ w
      (λ c. move_to_desktop-IsGrid c all_desktops w (inr refl) v) v
perform-IsGrid (unstick i) w f v =
    with_client-IsGrid (find_client i w.clients) _ w
      (λ c. move_to_desktop-IsGrid c w.current_desktop w (inl v.current) v) v
perform-IsGrid (ask_desktop i d) w f v =
    with_client-IsGrid (find_client i w.clients) _ w (λ c. request_desktop-IsGrid c d w v) v
perform-IsGrid reload w f v = settings_changed-IsGrid w v
perform-IsGrid (poll layout config) w f v = reload_poll-IsGrid layout config w f.0 f.1 v

-- Over every sequence of these requests of clients and of the user, in any order, from a state where it
-- holds, as `wm_desktops_apply` leaves one, and with grids to reload whose product fits an `int`: the number
-- of desktops is that of the grid, the current desktop is one of them, every client is on one of them or on
-- all, and a client is hidden exactly when its desktop is not shown.
pub perform_all-IsGrid :
    (ks : List Command) (w : Wm) → AllFit ks → IsGrid w → IsGrid (perform_all ks w)
unfolding perform_all
perform_all-IsGrid [] w f v = v
perform_all-IsGrid (k ∷ ks) w f v =
    perform_all-IsGrid ks (perform k w) f.1 (perform-IsGrid k w f.0 v)
