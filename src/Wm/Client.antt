-- ===== src/Wm/Client.antt =====
-- platform/X11/wm/src/wm.h: a managed window and the window manager's state, with the requests that
-- went to the X server. A `WmClient *` is the id of its window.
pub mod Each
use isde.Common.{ℕ, ◌==◌, ◌||◌, not, Bool, List, [], ◌∷◌, ◌++◌, Option, none, some, if◌then◌else◌}
use isde.Common.Int.{ℤ}

-- `struct WmClient`, the fields that desktops and focus read or write
pub record Client : Type 0 where
  pub client : ℕ
  -- 0 where there is no frame
  pub frame : ℕ
  pub focused : Bool
  pub minimized : Bool
  pub modal : Bool
  pub demands_attention : Bool
  pub hidden : Bool
  pub ignore_unmap : ℕ
  pub mapped : Bool
  pub desktop : ℕ
  pub transient_for : ℕ
  pub focus_seq : ℕ
  pub input_hint : Bool

pub data Request : Type 0 where
  map_window : ℕ → Request
  unmap_window : ℕ → Request
  set_input_focus : ℕ → Request
  -- WM_STATE of a window
  set_wm_state : ℕ → ℕ → Request
  -- EWMH properties
  set_wm_desktop : ℕ → ℕ → Request
  set_number_of_desktops : ℕ → Request
  set_current_desktop : ℕ → Request
  -- the compositor's animation, and the popup with the grid
  slide : ℤ → ℤ → Request
  show_osd : Request
  -- `wm_timer_add` for the poll of the desktop layout
  add_poll : Request

-- `struct Wm`; the clients stand in the order of the linked list, the requests newest first.
pub record Wm : Type 0 where
  pub clients : List Client
  pub focused : Option ℕ
  pub focus_seq : ℕ
  pub desk_rows : ℕ
  pub desk_cols : ℕ
  pub num_desktops : ℕ
  pub current_desktop : ℕ
  pub desk_reload_tries : ℕ
  pub compositor : Bool
  pub requests : List Request

-- 0xFFFFFFFF
abbrev pub all_desktops : ℕ
all_desktops = 4294967295

abbrev pub has_frame : Client → Bool
has_frame c = not (c.frame == 0)

-- A client belongs to a desktop if it stands on it or on all of them.
abbrev pub is_visible : (desktop : ℕ) → Client → Bool
is_visible desktop c = (c.desktop == desktop) || (c.desktop == all_desktops)

-- A loop over `wm->clients` that changes each client and makes requests, newest first.
unfoldable pub sweep :
    (Client → Client × List Request) → List Client → List Request → List Client × List Request
sweep f [] log = ([], log)
sweep f (c ∷ cs) log = let rest = sweep f cs ((f c).1 ++ log) in ((f c).0 ∷ rest.0, rest.1)

-- The dereference of a `WmClient *`.
unfoldable pub find_client : ℕ → List Client → Option Client
find_client id [] = none
find_client id (c ∷ cs) = if c.client == id then some c else find_client id cs

-- The writes through a `WmClient *`.
unfoldable pub update_client : ℕ → (Client → Client) → List Client → List Client
update_client id f [] = []
update_client id f (c ∷ cs) = if c.client == id then f c ∷ cs else c ∷ update_client id f cs
