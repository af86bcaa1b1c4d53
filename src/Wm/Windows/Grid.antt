-- ===== src/Wm/Windows/Grid.antt =====
-- Minimising, restoring and moving windows keeps the invariant of the desktops.
use isde.Common.{
  ℕ, ◌<◌, ◌==◌, ◌||◌, ltb, ◌≡◌, refl, ◌⊎◌, inl, inr, ◌++◌, Option, none, some, arith, Bool-cases,
}
use isde.Wm.Client.{Client, Wm, all_desktops, update_client}
use isde.Wm.Client.Each.{Each-update}
use isde.Wm.Focus.Keeps.{SameGrid}
use isde.Wm.Desktops.{hide, show}
use isde.Wm.Desktops.Grid.{IsPlaced, IsGrid, same-IsGrid, focus_client-IsGrid}
use isde.Wm.Windows.{
  passed_on, pass_on, first_other, minimized, minimize_client, restored, restore_client, moved,
  relocated, move_to_desktop, request_desktop, minimize_requests,
}

-- A write to one client that does not touch its desktop.
update-IsGrid :
    (i : ℕ) (f : Client → Client) (u w : Wm)
    → SameGrid u w
    → u.clients ≡ update_client i f w.clients
    → ((c : Client)
        → IsPlaced w.current_desktop w.num_desktops c
        → IsPlaced w.current_desktop w.num_desktops (f c))
    → IsGrid w
    → IsGrid u
update-IsGrid i f u w s e h v =
    same-IsGrid u w s v
      (rw e (Each-update (IsPlaced w.current_desktop w.num_desktops) i f h w.clients v.placed))

passed_on-IsGrid : (o : Option ℕ) (w : Wm) → IsGrid w → IsGrid (passed_on o w)
unfolding passed_on
passed_on-IsGrid none w v = v
passed_on-IsGrid (some j) w v = focus_client-IsGrid (some j) w v

pass_on-IsGrid : (i : ℕ) (w : Wm) → IsGrid w → IsGrid (pass_on i w)
unfolding pass_on
pass_on-IsGrid i w v =
    passed_on-IsGrid (first_other i w.clients) (record w { focused = none })
      (record { size = v.size; current = v.current; placed = v.placed })

pub minimize_client-IsGrid : (c : Client) (w : Wm) → IsGrid w → IsGrid (minimize_client c w)
unfolding minimize_client
minimize_client-IsGrid c w v = ground (arith, before, pass_on-IsGrid c.client _ before)
  where
    before : IsGrid (record w {
      clients = update_client c.client minimized w.clients;
      requests = minimize_requests c ++ w.requests;
    })
    before =
        update-IsGrid c.client minimized _ w
          (record { rows = refl; cols = refl; num = refl; current = refl }) refl
          (λ x p. record { in_range = p.in_range; hidden = p.hidden }) v

pub restore_client-IsGrid : (c : Client) (w : Wm) → IsGrid w → IsGrid (restore_client c w)
unfolding restore_client
restore_client-IsGrid c w v = elim (Bool-cases c.minimized) [
  | inl m ↦ rw m (
      update-IsGrid c.client restored _ w
        (record { rows = refl; cols = refl; num = refl; current = refl }) refl
        (λ x p. record { in_range = p.in_range; hidden = p.hidden }) v)
  | inr n ↦ rw n v
]

moved-IsPlaced :
    (current num desktop : ℕ) (c : Client)
    → (desktop < num) ⊎ (desktop ≡ all_desktops)
    → IsPlaced current num c
    → IsPlaced current num (moved current desktop c).0
unfolding moved hide show
moved-IsPlaced current num desktop c h p = ground arith

relocated-IsGrid :
    (c : Client) (desktop : ℕ) (w : Wm)
    → (desktop < w.num_desktops) ⊎ (desktop ≡ all_desktops)
    → IsGrid w
    → IsGrid (relocated c desktop w)
unfolding relocated
relocated-IsGrid c desktop w h v =
    update-IsGrid c.client (λ x. (moved w.current_desktop desktop x).0) _ w
      (record { rows = refl; cols = refl; num = refl; current = refl }) refl
      (λ x p. moved-IsPlaced w.current_desktop w.num_desktops desktop x h p) v

pub move_to_desktop-IsGrid :
    (c : Client) (desktop : ℕ) (w : Wm)
    → (desktop < w.num_desktops) ⊎ (desktop ≡ all_desktops)
    → IsGrid w
    → IsGrid (move_to_desktop c desktop w)
unfolding move_to_desktop
move_to_desktop-IsGrid c desktop w h v = ground (arith, relocated-IsGrid c desktop w h v)

-- A client may ask for any desktop.
pub request_desktop-IsGrid :
    (c : Client) (desktop : ℕ) (w : Wm) → IsGrid w → IsGrid (request_desktop c desktop w)
unfolding request_desktop
request_desktop-IsGrid c desktop w v =
    elim (Bool-cases (ltb desktop w.num_desktops || desktop == all_desktops)) [
      | inl allowed ↦ rw allowed (relocated-IsGrid c desktop w (ground arith) v)
      | inr refused ↦ rw refused v
    ]
