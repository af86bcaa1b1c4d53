-- ===== src/Wm/Placement.antt =====
-- platform/X11/wm/src/placement.c, with the frame's size of frame.c: where a new window goes. The work area
-- of the screen, the parent's geometry and what the client's hints say are arguments.
pub mod Inside
use isde.Common.{
  ℕ, ◌+◌, ◌-◌, ◌*◌, ◌/◌, ◌%◌, ltb, Bool, true, false, ◌||◌, Option, none, some, if◌then◌else◌,
}
use isde.Common.Int.{ℤ, pos, negsuc, pos_part, ◌+ℤ◌, ◌-ℤ◌, ltb_ℤ}

-- The geometry of a `WmClient`: the frame's position and the client's size.
pub record Geometry : Type 0 where
  pub x : ℤ
  pub y : ℤ
  pub width : ℕ
  pub height : ℕ
  pub decorated : Bool

-- `wm_get_work_area`
pub record WorkArea : Type 0 where
  pub wx : ℤ
  pub wy : ℤ
  pub ww : ℤ
  pub wh : ℤ

-- A store into an int16_t.
wrap_int16 : ℕ → ℤ
wrap_int16 r = if ltb r 32768 then pos r else negsuc (65535 - r)

pub to_int16 : ℤ → ℤ
unfolding wrap_int16
to_int16 (pos n) = wrap_int16 (n % 65536)
to_int16 (negsuc n) = wrap_int16 (65535 - n % 65536)

-- What the frame adds to the client's width and to its height.
abbrev pub border : ℕ
border = 2

abbrev pub chrome : (title_height : ℕ) → Geometry → ℕ
chrome title_height c = (if c.decorated then title_height else 0) + 2

-- `frame_total_width` and `frame_total_height`
abbrev pub frame_total_width : Geometry → ℕ
frame_total_width c = c.width + border

abbrev pub frame_total_height : (title_height : ℕ) → Geometry → ℕ
frame_total_height title_height c = c.height + chrome title_height c

-- One side of `clamp_to_work_area`: the client shrinks to what the frame leaves of the area, or to 1.
pub shrunk : (extent : ℤ) (added size : ℕ) → ℕ
shrunk extent added size = fitted (if ltb_ℤ room (pos 1) then pos 1 else room)
  where
    room : ℤ
    room = extent -ℤ pos added

    fitted : ℤ → ℕ
    fitted most = if ltb_ℤ most (pos size) then pos_part most else size

-- The frame moves back from the far edge, and then from the near one.
pub shifted : (origin extent : ℤ) (frame : ℕ) (at : ℤ) → ℤ
shifted origin extent frame at = near (
    if ltb_ℤ (origin +ℤ extent) (at +ℤ pos frame)
    then to_int16 (origin +ℤ extent -ℤ pos frame)
    else at)
  where
    near : ℤ → ℤ
    near at' = if ltb_ℤ at' origin then to_int16 origin else at'

-- `clamp_to_work_area`
pub clamp_to_work_area : WorkArea → (title_height : ℕ) → Geometry → Geometry
clamp_to_work_area a title_height c =
    let s = record c {
      width = shrunk a.ww border c.width;
      height = shrunk a.wh (chrome title_height c) c.height;
    } in
    record s {
      x = shifted a.wx a.ww (frame_total_width s) c.x;
      y = shifted a.wy a.wh (frame_total_height title_height s) c.y;
    }

-- `place_transient`, over its parent
pub place_transient : WorkArea → (title_height : ℕ) → (parent c : Geometry) → Geometry
place_transient a title_height parent c = clamp_to_work_area a title_height (record c {
  x = to_int16 (parent.x +ℤ pos (frame_total_width parent / 2) -ℤ pos (frame_total_width c / 2));
  y = to_int16 (
      parent.y
      +ℤ pos (frame_total_height title_height parent / 2)
      -ℤ pos (frame_total_height title_height c / 2));
})

-- The statics of `place_cascade`; none before the first use.
abbrev pub Cascade : Type 0
Cascade = Option (ℤ × ℤ)

cascade_at : WorkArea → Cascade → ℤ × ℤ
cascade_at a none = (a.wx, a.wy)
cascade_at a (some p) = p

-- n * 2 / 3, towards zero
two_thirds : ℤ → ℤ
two_thirds (pos n) = pos (n * 2 / 3)
two_thirds (negsuc n) = pos 0 -ℤ pos ((n + 1) * 2 / 3)

-- The next place is a step further, or the first one again.
pub advance : WorkArea → ℤ × ℤ → ℤ × ℤ
unfolding two_thirds
advance a (x, y) =
    let nx = x +ℤ pos 24 in
    let ny = y +ℤ pos 24 in
    if ltb_ℤ (a.wx +ℤ two_thirds a.ww) nx || ltb_ℤ (a.wy +ℤ two_thirds a.wh) ny
    then (a.wx, a.wy)
    else (nx, ny)

-- `place_cascade`
pub place_cascade : WorkArea → (title_height : ℕ) → Cascade → Geometry → Geometry × Cascade
unfolding cascade_at
place_cascade a title_height s c =
    let p = cascade_at a s in
    (
      clamp_to_work_area a title_height (record c { x = to_int16 (p.0); y = to_int16 (p.1) }),
      some (advance a p),
    )

-- `wm_place_client`: the parent is that of WM_TRANSIENT_FOR, if it is managed, and `positioned` says
-- whether the hints ask for a position.
pub place_client :
    WorkArea
    → (title_height : ℕ) → Option Geometry
    → (positioned : Bool) → Cascade
    → Geometry
    → Geometry × Cascade
place_client a title_height (some parent) positioned s c =
    (place_transient a title_height parent c, s)
place_client a title_height none true s c = (clamp_to_work_area a title_height c, s)
place_client a title_height none false s c = place_cascade a title_height s c
