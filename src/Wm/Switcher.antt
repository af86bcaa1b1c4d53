-- ===== src/Wm/Switcher.antt =====
-- platform/X11/wm/src/switcher.c: the list of windows that Alt+Tab steps through, and keys.c, which drives
-- it. The drawing of the list, and the compositor's preview of it, are left out.
pub mod Keys
pub mod Order
use isde.Common.{
  ℕ, zero, suc, ◌-◌, ◌==◌, ◌||◌, not, ltb, leb, Bool, true, false, List, [], ◌∷◌, map, Option, none,
  some, length, get_elem?, if◌then◌else◌,
}
use isde.Wm.Client.{Client, Wm, is_visible, find_client}
use isde.Wm.Focus.{focus_client}
use isde.Wm.Windows.{restore_client}

-- The fields `switcher_*` of `struct Wm`: `switcher_count` is the length of the order.
pub record Switcher : Type 0 where
  pub wm : Wm
  pub order : List ℕ
  pub sel : ℕ
  pub active : Bool

-- The loop of `build_order`: windows of the desktop that are not dialogs.
pub candidates : (current : ℕ) → List Client → List Client
candidates current [] = []
candidates current (c ∷ cs) =
    let rest = candidates current cs in
    if not (c.transient_for == 0) then rest else if is_visible current c then c ∷ rest else rest

-- qsort with `cmp_mru`: the last focused first.
pub insert_mru : Client → List Client → List Client
insert_mru c [] = c ∷ []
insert_mru c (d ∷ ds) = if ltb c.focus_seq d.focus_seq then d ∷ insert_mru c ds else c ∷ d ∷ ds

pub sort_mru : List Client → List Client
sort_mru [] = []
sort_mru (c ∷ cs) = insert_mru c (sort_mru cs)

-- `build_order`
pub build_order : Wm → List Client
build_order w = sort_mru (candidates w.current_desktop w.clients)

-- `destroy_osd`, and the end of the switcher
pub closed : Switcher → Switcher
closed s = record s { order = []; active = false }

-- `wm_switcher_next`
pub next : Switcher → Switcher
next s =
    if not s.active || (length s.order == 0)
    then s
    else record s { sel = if leb (length s.order) (suc s.sel) then 0 else suc s.sel }

-- `wm_switcher_prev`
pub prev : Switcher → Switcher
prev s =
    if not s.active || (length s.order == 0)
    then s
    else record s { sel = if s.sel == 0 then length s.order - 1 else s.sel - 1 }

-- `wm_switcher_show`; `grabbed` says whether the keyboard could be grabbed.
pub show : (grabbed : Bool) → Switcher → Switcher
show grabbed s =
    if s.active
    then next s
    else if ltb (length (build_order s.wm)) 2 || not grabbed
    then record s { order = [] }
    else record s { order = map (λ c. c.client) (build_order s.wm); sel = 1; active = true }

-- The window of the selection is restored and takes the focus.
pub go_to : Option Client → Wm → Wm
go_to none w = w
go_to (some c) w = focus_client (some c.client) (restore_client c w)

pub selected : List ℕ → ℕ → Wm → Option Client
selected order sel w = target (get_elem? order sel)
  where
    target : Option ℕ → Option Client
    target none = none
    target (some i) = find_client i w.clients

-- `wm_switcher_commit`
pub commit : Switcher → Switcher
commit s =
    if s.active then record (closed s) { wm = go_to (selected s.order s.sel s.wm) s.wm } else s

-- `wm_switcher_cancel`
pub cancel : Switcher → Switcher
cancel s = if s.active then closed s else s

-- The keys of keys.c that reach the switcher; Shift with Tab opens it all the same.
pub data Key : Type 0 where
  tab shift_tab : (grabbed : Bool) → Key
  escape alt_released : Key

pub press : Key → Switcher → Switcher
press (tab grabbed) s = if s.active then next s else show grabbed s
press (shift_tab grabbed) s = if s.active then prev s else show grabbed s
press escape s = cancel s
press alt_released s = commit s

pub press_all : List Key → Switcher → Switcher
press_all [] s = s
press_all (k ∷ ks) s = press_all ks (press k s)
