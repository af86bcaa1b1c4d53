-- ===== src/Wm/Desktops/Poll.antt =====
-- Moves and reloads of the grid keep the invariant of the desktops.
use isde.Common.{ℕ, suc, Option, none, some, arith}
use isde.Common.Int.{ℤ}
use isde.Wm.Client.{Wm}
use isde.Wm.Desktops.{retry, reload_poll, settings_changed, move, move_target}
use isde.Wm.Desktops.Grid.{IsGrid, FitsGrid, apply-IsGrid, switch-IsGrid}

pub move-IsGrid : (dx dy : ℤ) (w : Wm) → IsGrid w → IsGrid (move dx dy w)
unfolding move
move-IsGrid dx dy w v = switch-IsGrid (move_target dx dy w) w v

pub settings_changed-IsGrid : (w : Wm) → IsGrid w → IsGrid (settings_changed w)
unfolding settings_changed
settings_changed-IsGrid w v = record { size = v.size; current = v.current; placed = v.placed }

-- What the panel announces fits.
abbrev pub FitsLayout : Option (ℕ × ℕ) → Type 0
FitsLayout none = Unit {0}
FitsLayout (some (rows, cols)) = FitsGrid rows cols

retry-IsGrid :
    (config : ℕ × ℕ) (w : Wm) → FitsGrid config.0 config.1 → IsGrid w → IsGrid (retry config w)
unfolding retry
retry-IsGrid (rows, cols) w fits v = ground (
  arith,
  apply-IsGrid rows cols (record w { desk_reload_tries = suc w.desk_reload_tries }) fits,
  v.size,
  v.current,
  v.placed,
)

pub reload_poll-IsGrid :
    (layout : Option (ℕ × ℕ)) (config : ℕ × ℕ) (w : Wm)
    → FitsLayout layout
    → FitsGrid config.0 config.1
    → IsGrid w
    → IsGrid (reload_poll layout config w)
unfolding reload_poll
reload_poll-IsGrid none config w here fits v = retry-IsGrid config w fits v
reload_poll-IsGrid (some (rows, cols)) config w here fits v =
    ground (arith, apply-IsGrid rows cols w here, retry-IsGrid config w fits v)
