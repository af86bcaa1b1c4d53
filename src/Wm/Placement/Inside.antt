-- ===== src/Wm/Placement/Inside.antt =====
-- A placed window lies inside the work area.
use isde.Common.{
  ℕ, ◌+◌, ◌≡◌, refl, Bool, true, false, Bool-cases, inl, inr, Option, none, some, arith,
}
use isde.Common.Int.{ℤ, pos, negsuc, ◌+ℤ◌, ◌-ℤ◌, ◌≤ℤ◌, int_laws, +ℤ_parts, -ℤ_parts}
use isde.Wm.Placement.{
  Geometry, WorkArea, to_int16, border, chrome, frame_total_width, frame_total_height, shrunk,
  shifted, clamp_to_work_area, place_transient, Cascade, place_cascade, place_client,
}

-- A work area with room for a window of one pixel in its frame, at coordinates that an int16_t holds.
pub record IsArea (a : WorkArea) (title_height : ℕ) : Type 0 where
  pub left : pos 0 ≤ℤ a.wx
  pub top : pos 0 ≤ℤ a.wy
  pub wide : pos 3 ≤ℤ a.ww
  pub high : pos (title_height + 3) ≤ℤ a.wh
  pub right : (a.wx +ℤ a.ww) ≤ℤ pos 32767
  pub bottom : (a.wy +ℤ a.wh) ≤ℤ pos 32767

-- The frame of the window, inside the area on all four sides.
pub record IsInside (a : WorkArea) (title_height : ℕ) (c : Geometry) : Type 0 where
  pub left : a.wx ≤ℤ c.x
  pub right : (c.x +ℤ pos (frame_total_width c)) ≤ℤ (a.wx +ℤ a.ww)
  pub top : a.wy ≤ℤ c.y
  pub bottom : (c.y +ℤ pos (frame_total_height title_height c)) ≤ℤ (a.wy +ℤ a.wh)

to_int16_id : (z : ℤ) → pos 0 ≤ℤ z → z ≤ℤ pos 32767 → to_int16 z ≡ z
unfolding to_int16
to_int16_id (pos n) h k = ground arith
to_int16_id (negsuc n) h k = absurd (omega arith)

shrunk-fits :
    (extent : ℤ) (added size : ℕ)
    → pos (added + 1) ≤ℤ extent
    → pos (shrunk extent added size + added) ≤ℤ extent
unfolding shrunk
shrunk-fits extent added size h = ground (arith, -ℤ_parts extent (pos added))

shifted-inside :
    (origin extent : ℤ) (frame : ℕ) (at : ℤ)
    → pos 0 ≤ℤ origin
    → (origin +ℤ extent) ≤ℤ pos 32767
    → pos frame ≤ℤ extent
    → (origin ≤ℤ shifted origin extent frame at)
      × ((shifted origin extent frame at +ℤ pos frame) ≤ℤ (origin +ℤ extent))
unfolding shifted
shifted-inside origin extent frame at h k f =
    let far = origin +ℤ extent -ℤ pos frame in
    ground (
      arith,
      to_int16_id origin h (omega int_laws),
      to_int16_id far (omega int_laws) (omega int_laws),
      +ℤ_parts origin extent,
      +ℤ_parts at (pos frame),
      -ℤ_parts (origin +ℤ extent) (pos frame),
      +ℤ_parts origin (pos frame),
      +ℤ_parts far (pos frame),
    )

module _ (a : WorkArea) (title_height : ℕ) (v : IsArea a title_height) where
  chrome-fits : (c : Geometry) → pos (chrome title_height c + 1) ≤ℤ a.wh
  chrome-fits c = elim (Bool-cases c.decorated) [
    | inl framed ↦ rw framed (omega (arith, v.high))
    | inr bare ↦ rw bare (omega (arith, v.high))
  ]

  clamp-IsInside : (c : Geometry) → IsInside a title_height (clamp_to_work_area a title_height c)
  unfolding clamp_to_work_area
  clamp-IsInside c =
      let w = shrunk-fits a.ww border c.width (omega (arith, v.wide)) in
      let h = shrunk-fits a.wh (chrome title_height c) c.height (chrome-fits c) in
      let x = shifted-inside a.wx a.ww _ c.x v.left v.right w in
      let y = shifted-inside a.wy a.wh _ c.y v.top v.bottom h in
      record { left = x.0; right = x.1; top = y.0; bottom = y.1 }

  -- In a work area with room for one pixel in its frame, at coordinates that an int16_t holds,
  -- `wm_place_client` puts every window with its whole frame inside the area: over its parent, where it
  -- asked to be, or at the next place of the cascade, whatever size and place it had.
  pub place_client-IsInside :
      (parent : Option Geometry) (positioned : Bool) (s : Cascade) (c : Geometry)
      → IsInside a title_height (place_client a title_height parent positioned s c).0
  unfolding place_client place_transient place_cascade
  place_client-IsInside none false s c = clamp-IsInside _
  place_client-IsInside none true s c = clamp-IsInside c
  place_client-IsInside (some parent) positioned s c = clamp-IsInside _

-- What is inside already stays: no side shrinks and no edge moves.
shrunk_id :
    (extent : ℤ) (added size : ℕ) → pos (size + added) ≤ℤ extent → shrunk extent added size ≡ size
unfolding shrunk
shrunk_id extent added size h = ground (arith, -ℤ_parts extent (pos added))

shifted_id :
    (origin extent : ℤ) (frame : ℕ) (at : ℤ)
    → origin ≤ℤ at
    → (at +ℤ pos frame) ≤ℤ (origin +ℤ extent)
    → shifted origin extent frame at ≡ at
unfolding shifted
shifted_id origin extent frame at h k = ground arith

-- `clamp_to_work_area` leaves a window alone that lies inside the work area.
pub clamp_id :
    (a : WorkArea) (title_height : ℕ) (c : Geometry)
    → IsInside a title_height c
    → clamp_to_work_area a title_height c ≡ c
unfolding clamp_to_work_area
clamp_id a title_height c v =
    let w = shrunk_id a.ww border c.width (
      omega
        (arith, v.left, v.right, +ℤ_parts c.x (pos (frame_total_width c)), +ℤ_parts a.wx a.ww)) in
    let h = shrunk_id a.wh (chrome title_height c) c.height (
      omega (
        arith,
        v.top,
        v.bottom,
        +ℤ_parts c.y (pos (frame_total_height title_height c)),
        +ℤ_parts a.wy a.wh,
      )) in
    rw
      (
        w,
        h,
        shifted_id a.wx a.ww (frame_total_width c) c.x v.left v.right,
        shifted_id a.wy a.wh (frame_total_height title_height c) c.y v.top v.bottom,
      )
      refl
