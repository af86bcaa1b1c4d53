-- ===== src/Wm/Tests.antt =====
-- The theorems on the window manager at concrete inputs.
use isde.Common.{refl, inl, true, false, [], ◌∷◌, none, some, arith}
use isde.Common.Int.{pos, ◌+ℤ◌}
use isde.Wm.Client.{Client, Wm}
use isde.Wm.Client.Each.{Each}
use isde.Wm.Desktops.{apply, switch}
use isde.Wm.Desktops.Grid.{IsGrid, apply-IsGrid}
use isde.Wm.Desktops.Mapped.{IsShown, switch-IsShown}
use isde.Wm.Control.{
  show_desktop, step_desktop, minimize, stick, ask_desktop, perform_all, perform_all-IsGrid,
}
use isde.Wm.Switcher.{Switcher, build_order, tab, shift_tab, escape, press_all}
use isde.Wm.Switcher.Keys.{IsSwitcher, press_all-IsSwitcher}
use isde.Wm.Switcher.Order.{IsDescending, listed, build_order-IsDescending}
use mathlib.Core.List.{Permᴰ}
use isde.Wm.Placement.{Geometry, WorkArea, place_client}
use isde.Wm.Placement.Inside.{IsArea, IsInside, place_client-IsInside}

abbrev terminal : Client
terminal = record {
  client = 10;
  frame = 11;
  focused = true;
  minimized = false;
  modal = false;
  demands_attention = false;
  hidden = false;
  ignore_unmap = 0;
  mapped = true;
  desktop = 0;
  transient_for = 0;
  focus_seq = 2;
  input_hint = true;
}

abbrev editor : Client
editor = record terminal { client = 20; frame = 21; focused = false; focus_seq = 1 }

-- A minimised window of the second desktop.
abbrev notes : Client
notes = record terminal {
  client = 30;
  frame = 31;
  focused = false;
  minimized = true;
  hidden = true;
  mapped = false;
  desktop = 1;
  focus_seq = 0;
}

abbrev session : Wm
session = record {
  clients = terminal ∷ editor ∷ notes ∷ [];
  focused = some 10;
  focus_seq = 2;
  desk_rows = 1;
  desk_cols = 2;
  num_desktops = 2;
  current_desktop = 0;
  desk_reload_tries = 0;
  compositor = false;
  requests = [];
}

session-IsGrid : IsGrid session
session-IsGrid = record {
  size = refl;
  current = omega arith;
  placed = (
    record { in_range = inl (omega arith); hidden = refl },
    (
      record { in_range = inl (omega arith); hidden = refl },
      (record { in_range = inl (omega arith); hidden = refl }, tt),
    ),
  );
}

apply-IsGrid_example : IsGrid (apply 1 1 session)
apply-IsGrid_example = apply-IsGrid 1 1 session (omega arith)

switch-IsShown_example : Each (IsShown 1) (switch 1 session).clients
switch-IsShown_example = switch-IsShown 1 session (omega arith) (omega arith) (omega arith)

perform_all-IsGrid_example : IsGrid (
    perform_all
      (minimize 10
        ∷ step_desktop (pos 1) (pos 0)
        ∷ stick 30
        ∷ ask_desktop 20 1
        ∷ show_desktop 0
        ∷ [])
      session)
perform_all-IsGrid_example =
    perform_all-IsGrid
      (minimize 10
        ∷ step_desktop (pos 1) (pos 0)
        ∷ stick 30
        ∷ ask_desktop 20 1
        ∷ show_desktop 0
        ∷ [])
      session (tt, (tt, (tt, (tt, (tt, tt))))) session-IsGrid

build_order-IsDescending_example :
    IsDescending (build_order session) × Permᴰ (build_order session) (listed 0 session.clients)
build_order-IsDescending_example = build_order-IsDescending session

abbrev screen : WorkArea
screen = record { wx = pos 0; wy = pos 32; ww = pos 1920; wh = pos 1048 }

screen-IsArea : IsArea screen 24
unfolding ◌+ℤ◌
screen-IsArea = record {
  left = omega arith;
  top = omega arith;
  wide = omega arith;
  high = omega arith;
  right = omega arith;
  bottom = omega arith;
}

abbrev wide_window : Geometry
wide_window = record { x = pos 0; y = pos 0; width = 4000; height = 300; decorated = true }

place_client-IsInside_example :
    IsInside screen 24 (place_client screen 24 none false none wide_window).0
place_client-IsInside_example =
    place_client-IsInside screen 24 screen-IsArea none false none wide_window

abbrev small_window : Geometry
small_window = record { x = pos 100; y = pos 100; width = 400; height = 300; decorated = true }

small_window-IsInside : IsInside screen 24 small_window
unfolding ◌+ℤ◌
small_window-IsInside = record {
  left = omega arith;
  right = omega arith;
  top = omega arith;
  bottom = omega arith;
}

abbrev open_switcher : Switcher
open_switcher = record { wm = session; order = 10 ∷ 20 ∷ []; sel = 1; active = true }

open_switcher-IsSwitcher : IsSwitcher open_switcher
open_switcher-IsSwitcher = record { in_range = refl; no_order = refl }

press_all-IsSwitcher_example :
    IsSwitcher (press_all (tab true ∷ shift_tab true ∷ escape ∷ []) open_switcher)
press_all-IsSwitcher_example =
    press_all-IsSwitcher (tab true ∷ shift_tab true ∷ escape ∷ []) open_switcher
      open_switcher-IsSwitcher
