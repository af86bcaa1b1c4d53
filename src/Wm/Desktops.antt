-- ===== src/Wm/Desktops.antt =====
-- platform/X11/wm/src/desktops.c: the grid of virtual desktops. The number of desktops, an `int`, is
-- given by its 32 bits. The drawing of the popup is left out.
pub mod Grid
pub mod Poll
pub mod Mapped
use isde.Common.{
  ℕ, suc, ◌+◌, ◌-◌, ◌*◌, ◌/◌, ◌%◌, ◌^◌, ◌==◌, ◌&&◌, ◌||◌, not, ltb, leb, Bool, true, false, List,
  [], ◌∷◌, ◌++◌, Option, none, some, if◌then◌else◌, is_some,
}
use isde.Common.Int.{ℤ, pos, negsuc, ◌+ℤ◌}
use mathlib.Core.Option
use isde.Wm.Client.{
  Client, Request, map_window, unmap_window, set_wm_desktop, set_number_of_desktops,
  set_current_desktop, slide, show_osd, add_poll, Wm, all_desktops, has_frame, is_visible, sweep,
  find_client, update_client,
}
use isde.Wm.Focus.{unfocused, focus_client}

-- The client's windows are unmapped, and the notice of it will be ignored.
unfoldable pub hide : Client → Client × List Request
hide c = (
  record c {
    hidden = true;
    ignore_unmap = suc c.ignore_unmap;
    mapped = if has_frame c && c.mapped then false else c.mapped;
  },
  if has_frame c && c.mapped
      then unmap_window c.frame ∷ unmap_window c.client ∷ []
      else unmap_window c.client ∷ [],
)

unfoldable pub show : Client → Client × List Request
show c = (
  record c { hidden = false; mapped = if has_frame c then true else c.mapped },
  if has_frame c then map_window c.frame ∷ map_window c.client ∷ [] else map_window c.client ∷ [],
)

pub sync_one : (current : ℕ) → Client → Client × List Request
sync_one current c =
    if is_visible current c && c.hidden
    then show c
    else if not (is_visible current c) && not c.hidden
    then hide c
    else (c, [])

-- `wm_desktops_sync_visibility`
pub sync_visibility : Wm → Wm
sync_visibility w =
    let s = sweep (sync_one w.current_desktop) w.clients w.requests in
    record w { clients = s.0; requests = s.1 }

-- A client of a desktop that is gone moves to the last one.
pub pull_one : (last : ℕ) → Client → Client × List Request
pull_one last c =
    if not (c.desktop == all_desktops) && ltb last c.desktop
    then (record c { desktop = last }, set_wm_desktop c.client last ∷ [])
    else (c, [])

abbrev pub at_least_one : ℕ → ℕ
at_least_one n = if ltb n 1 then 1 else n

-- The product of two `int`s, and one less as a `uint32_t`.
pub int_product : (rows cols : ℕ) → ℕ
int_product rows cols = rows * cols % 2 ^ 32

pub one_less : ℕ → ℕ
one_less n = (n + (2 ^ 32 - 1)) % 2 ^ 32

pub resized : (rows cols : ℕ) → Wm → Wm
unfolding int_product one_less
resized rows cols w =
    let last = one_less (int_product rows cols) in
    let s = sweep (pull_one last) w.clients w.requests in
    record w {
      desk_rows = rows;
      desk_cols = cols;
      num_desktops = int_product rows cols;
      clients = s.0;
      requests = s.1;
      current_desktop = if ltb last w.current_desktop then last else w.current_desktop;
    }

pub announced : Wm → Wm
announced w = record w {
  requests =
      set_current_desktop w.current_desktop ∷ set_number_of_desktops w.num_desktops ∷ w.requests;
}

-- `wm_desktops_apply`; a number below 1 counts as 1
pub apply : (rows cols : ℕ) → Wm → Wm
apply rows cols w = announced (sync_visibility (resized (at_least_one rows) (at_least_one cols) w))

-- No new layout yet: the next poll, or after 40 of them the grid of the configuration.
pub retry : (config : ℕ × ℕ) → Wm → Wm
retry (rows, cols) w =
    let tried = record w { desk_reload_tries = suc w.desk_reload_tries } in
    if leb 40 tried.desk_reload_tries
    then apply rows cols tried
    else record tried { requests = add_poll ∷ tried.requests }

-- `wm_desktops_reload_poll`: `layout` is the grid that the panel announces, if both numbers are positive,
-- and `config` the one of `wm_desktops_read_config`.
pub reload_poll : (layout : Option (ℕ × ℕ)) (config : ℕ × ℕ) → Wm → Wm
reload_poll none config w = retry config w
reload_poll (some (rows, cols)) config w =
    if not (cols == w.desk_cols) || not (rows == w.desk_rows)
    then apply rows cols w
    else retry config w

-- `wm_desktops_settings_changed`
pub settings_changed : Wm → Wm
settings_changed w = record w { desk_reload_tries = 0; requests = add_poll ∷ w.requests }

-- (new > old) - (new < old)
abbrev direction : (old new : ℕ) → ℤ
direction old new = if ltb old new then pos 1 else if ltb new old then negsuc 0 else pos 0

slide_requests : (old new : ℕ) → Wm → List Request
slide_requests old new w =
    if w.compositor
    then slide (direction (old % w.desk_cols) (new % w.desk_cols))
        (direction (old / w.desk_cols) (new / w.desk_cols))
      ∷ []
    else []

pub switch_one : (old desktop : ℕ) → Client → Client × List Request
switch_one old desktop c =
    if c.desktop == all_desktops
    then (c, [])
    else if (c.desktop == old) && not (c.desktop == desktop)
    then hide c
    else if (c.desktop == desktop) && not (c.desktop == old)
    then show c
    else (c, [])

-- From `old = wm->current_desktop` to the end of the loop over the clients.
pub swapped : (desktop : ℕ) → Wm → Wm
unfolding slide_requests
swapped desktop w =
    let s =
      sweep (switch_one w.current_desktop desktop) w.clients
        (slide_requests w.current_desktop desktop w ++ w.requests) in
    record w {
      current_desktop = desktop;
      clients = s.0;
      requests = set_current_desktop desktop ∷ s.1;
    }

-- A focused client that is not on the new desktop loses the focus.
pub unfocus_found : (desktop : ℕ) → Option Client → Wm → Wm
unfocus_found desktop none w = w
unfocus_found desktop (some c) w =
    if is_visible desktop c
    then w
    else record w { focused = none; clients = update_client c.client unfocused w.clients }

pub drop_focus : (desktop : ℕ) → Option ℕ → Wm → Wm
drop_focus desktop none w = w
drop_focus desktop (some i) w = unfocus_found desktop (find_client i w.clients) w

pub later : (best : Option Client) → Client → Client
later none c = c
later (some b) c = if ltb b.focus_seq c.focus_seq then c else b

-- The most recently focused client of the desktop.
pub most_recent : (desktop : ℕ) → (best : Option Client) → List Client → Option Client
most_recent desktop best [] = best
most_recent desktop best (c ∷ cs) =
    most_recent desktop (if is_visible desktop c then some (later best c) else best) cs

pub refocus : (desktop : ℕ) → Wm → Wm
refocus desktop w =
    if is_some w.focused
    then w
    else focus_client (Option.map (λ c. c.client) (most_recent desktop none w.clients)) w

pub shown_osd : Wm → Wm
shown_osd w = record w { requests = show_osd ∷ w.requests }

-- `wm_desktops_switch`
pub switch : (desktop : ℕ) → Wm → Wm
switch desktop w =
    if leb w.num_desktops desktop || desktop == w.current_desktop
    then w
    else let s = swapped desktop w in shown_osd (refocus desktop (drop_focus desktop s.focused s))

-- One coordinate after a step, held inside 0 … size - 1.
pub clamped : (at : ℕ) (step : ℤ) (size : ℕ) → ℕ
clamped at step size = inside (pos at +ℤ step)
  where
    inside : ℤ → ℕ
    inside (negsuc n) = 0
    inside (pos n) = if leb size n then size - 1 else n

pub move_target : (dx dy : ℤ) → Wm → ℕ
move_target dx dy w =
    clamped (w.current_desktop / w.desk_cols) dy w.desk_rows * w.desk_cols
    + clamped (w.current_desktop % w.desk_cols) dx w.desk_cols

-- `wm_desktops_move`
pub move : (dx dy : ℤ) → Wm → Wm
move dx dy w = switch (move_target dx dy w) w
