-- ===== src/Wm/Focus.antt =====
-- platform/X11/wm/src/wm.c: `wm_focus_client`. The stacking order, the properties that mirror the state
-- and the drawing of frames are left out.
pub mod Keeps
use isde.Common.{
  ℕ, suc, ◌==◌, ◌&&◌, not, Bool, true, false, List, [], ◌∷◌, ◌++◌, Option, none, some,
  if◌then◌else◌,
}
use isde.Wm.Client.{Client, Request, set_input_focus, Wm, has_frame, find_client, update_client}

abbrev pub is_modal_for : ℕ → Client → Bool
is_modal_for id m = m.modal && m.transient_for == id && has_frame m && m.mapped

-- A mapped modal dialog of the client takes the focus in its place.
pub redirected : ℕ → List Client → ℕ
redirected id [] = id
redirected id (m ∷ ms) = if is_modal_for id m then m.client else redirected id ms

abbrev pub unfocused : Client → Client
unfocused c = record c { focused = false }

abbrev pub focused_with : ℕ → Client → Client
focused_with seq c = record c { focused = true; focus_seq = seq; demands_attention = false }

-- `if (prev && prev != c)`
pub leave : (prev : Option ℕ) → (c : Option ℕ) → List Client → List Client
leave none c cs = cs
leave (some p) none cs = update_client p unfocused cs
leave (some p) (some i) cs = if p == i then cs else update_client p unfocused cs

pub focus_requests : Option Client → List Request
focus_requests none = []
focus_requests (some c) = if c.input_hint then set_input_focus c.client ∷ [] else []

pub focus_on : Option ℕ → Wm → Wm
focus_on none w = record w { focused = none; clients = leave w.focused none w.clients }
focus_on (some i) w = record w {
  focused = some i;
  focus_seq = suc w.focus_seq;
  clients = update_client i (focused_with (suc w.focus_seq)) (leave w.focused (some i) w.clients);
  requests = focus_requests (find_client i w.clients) ++ w.requests;
}

-- `wm_focus_client`
pub focus_client : Option ℕ → Wm → Wm
unfolding focus_on redirected
focus_client none w = focus_on none w
focus_client (some i) w = focus_on (some (redirected i w.clients)) w
