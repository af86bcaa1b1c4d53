-- ===== src/Wm/Desktops/Mapped.antt =====
-- `wm_desktops_switch` maps every window of the new desktop.
use isde.Common.{
  ℕ, ◌<◌, ◌==◌, ◌&&◌, ◌||◌, not, leb, ◌≡◌, ◌≢◌, false, Option, none, some, arith, Bool-cases, inl,
  inr, is_some,
}
use mathlib.Core.Option
use isde.Wm.Client.{Client, Wm, all_desktops, is_visible, has_frame, find_client}
use isde.Wm.Client.Each.{Each, Each-sweep, Each-update, Each-Unit}
use isde.Wm.Focus.{unfocused}
use isde.Wm.Focus.Keeps.{IsFocusFree, focus_client-Each}
use isde.Wm.Desktops.{
  hide, show, switch_one, swapped, unfocus_found, drop_focus, most_recent, refocus, shown_osd,
  switch,
}

-- A framed client of the desktop has its frame mapped and is not hidden.
abbrev pub IsShown : (desktop : ℕ) → Client → Type 0
IsShown desktop c = (c.desktop == desktop && has_frame c && (not c.mapped || c.hidden)) ≡ false

IsShown-IsFocusFree : (d : ℕ) → IsFocusFree (IsShown d)
IsShown-IsFocusFree d = record { off = λ c h. h; on = λ seq c h. h }

switch_one-IsShown :
    (old d : ℕ) (c : Client)
    → (d ≢ old) × (d ≢ all_desktops)
    → Unit {0}
    → IsShown d (switch_one old d c).0
unfolding switch_one hide show
switch_one-IsShown old d c h u = ground arith

module _ (d : ℕ) where
  unfocus_found-IsShown :
      (o : Option Client) (w : Wm)
      → Each (IsShown d) w.clients
      → Each (IsShown d) (unfocus_found d o w).clients
  unfolding unfocus_found
  unfocus_found-IsShown none w v = v
  unfocus_found-IsShown (some c) w v = elim (Bool-cases (is_visible d c)) [
    | inl stays ↦ rw stays v
    | inr goes ↦
        rw goes (Each-update (IsShown d) c.client unfocused (IsShown-IsFocusFree d).off w.clients v)
  ]

  drop_focus-IsShown :
      (o : Option ℕ) (w : Wm)
      → Each (IsShown d) w.clients
      → Each (IsShown d) (drop_focus d o w).clients
  unfolding drop_focus
  drop_focus-IsShown none w v = v
  drop_focus-IsShown (some i) w v = unfocus_found-IsShown (find_client i w.clients) w v

  refocus-IsShown : (w : Wm) → Each (IsShown d) w.clients → Each (IsShown d) (refocus d w).clients
  unfolding refocus
  refocus-IsShown w v = elim (Bool-cases (is_some w.focused)) [
    | inl kept ↦ rw kept v
    | inr lost ↦ rw lost (
        focus_client-Each (IsShown d) (IsShown-IsFocusFree d)
          (Option.map (λ c. c.client) (most_recent d none w.clients)) w v)
  ]

  -- After `wm_desktops_switch` to another desktop of the grid, whose number is not the one that stands
  -- for all desktops, the frame of every framed client of that desktop is mapped and the client is not
  -- hidden, also where it was minimised.
  pub switch-IsShown :
      (w : Wm)
      → d < w.num_desktops
      → d ≢ w.current_desktop
      → d ≢ all_desktops
      → Each (IsShown d) (switch d w).clients
  unfolding switch swapped shown_osd
  switch-IsShown w h other real =
      let accepted : (leb w.num_desktops d || d == w.current_desktop) ≡ false = ground arith in
      rw accepted (
        refocus-IsShown _ (
          drop_focus-IsShown _ _ (
            Each-sweep (λ c. Unit {0}) (IsShown d) (switch_one w.current_desktop d)
              (λ c u. switch_one-IsShown w.current_desktop d c (other, real) u) w.clients _
              (Each-Unit w.clients))))
