-- ===== src/Wm/Windows.antt =====
-- platform/X11/wm/src/wm.c: a window is minimised, restored or moved to a desktop.
pub mod Grid
use isde.Common.{
  ℕ, suc, ◌-◌, ◌==◌, ◌&&◌, ◌||◌, not, ltb, Bool, true, false, List, [], ◌∷◌, ◌++◌, Option, none,
  some, if◌then◌else◌,
}
use isde.Wm.Client.{
  Client, Request, map_window, unmap_window, set_wm_state, set_wm_desktop, Wm, all_desktops,
  has_frame, is_visible, find_client, update_client,
}
use isde.Wm.Focus.{focus_client}
use isde.Wm.Desktops.{hide, show}

pub is_focused : ℕ → Option ℕ → Bool
is_focused i none = false
is_focused i (some j) = i == j

-- The first client that is not this one.
pub first_other : ℕ → List Client → Option ℕ
first_other i [] = none
first_other i (c ∷ cs) = if c.client == i then first_other i cs else some c.client

pub passed_on : Option ℕ → Wm → Wm
passed_on none w = w
passed_on (some j) w = focus_client (some j) w

-- The focus goes to the first other client; without one, it is lost.
pub pass_on : ℕ → Wm → Wm
unfolding first_other
pass_on i w = passed_on (first_other i w.clients) (record w { focused = none })

abbrev pub minimized : Client → Client
minimized c = record c {
  minimized = true;
  mapped = if has_frame c then false else c.mapped;
  ignore_unmap = suc c.ignore_unmap;
}

pub minimize_requests : Client → List Request
minimize_requests c =
    unmap_window c.client ∷ (if has_frame c then unmap_window c.frame ∷ [] else [])
    ++ set_wm_state c.client 3 ∷ []

-- `wm_minimize_client`
pub minimize_client : Client → Wm → Wm
unfolding minimize_requests is_focused
minimize_client c w =
    let v = record w {
      clients = update_client c.client minimized w.clients;
      requests = minimize_requests c ++ w.requests;
    } in
    if is_focused c.client w.focused then pass_on c.client v else v

abbrev pub restored : Client → Client
restored c = record c { minimized = false; mapped = if has_frame c then true else c.mapped }

-- `wm_restore_client`
pub restore_client : Client → Wm → Wm
restore_client c w =
    if c.minimized
    then record w {
      clients = update_client c.client restored w.clients;
      requests = (show c).1 ++ set_wm_state c.client 1 ∷ w.requests;
    }
    else w

-- The client as it stands on its new desktop.
pub moved : (current desktop : ℕ) → Client → Client × List Request
moved current desktop c =
    let d = record c { desktop = desktop } in
    if is_visible current c && not (is_visible current d)
    then hide d
    else if not (is_visible current c) && is_visible current d
    then show d
    else (d, [])

pub lose_focus : (current desktop : ℕ) → Client → Option ℕ → Option ℕ
unfolding is_focused
lose_focus current desktop c focused =
    if is_visible current c
      && not (is_visible current (record c { desktop = desktop }))
      && is_focused c.client focused
    then none
    else focused

pub relocated : Client → (desktop : ℕ) → Wm → Wm
relocated c desktop w = record w {
  clients = update_client c.client (λ x. (moved w.current_desktop desktop x).0) w.clients;
  focused = lose_focus w.current_desktop desktop c w.focused;
  requests = (moved w.current_desktop desktop c).1 ++ set_wm_desktop c.client desktop ∷ w.requests;
}

-- `wm_move_to_desktop`
pub move_to_desktop : Client → (desktop : ℕ) → Wm → Wm
move_to_desktop c desktop w = if desktop == c.desktop then w else relocated c desktop w

-- _NET_WM_DESKTOP in `on_client_message`
pub request_desktop : Client → (desktop : ℕ) → Wm → Wm
request_desktop c desktop w =
    if ltb desktop w.num_desktops || desktop == all_desktops then relocated c desktop w else w
