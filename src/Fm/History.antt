-- ===== src/Fm/History.antt =====
-- fm/src/navigate.c, shortcuts.c and navbar.c: the directories that Back and Forward lead to. The reading
-- and the showing of a directory are left out; whether it can be read is an argument.
pub mod Valid
pub mod Overrun
use isde.Common.{
  ℕ, suc, ◌-◌, ◌==◌, ltb, leb, Bool, true, false, List, [], ◌∷◌, ◌++◌, Option, none, some, Str,
  length, take, get_elem?, if◌then◌else◌,
}

-- FM_HISTORY_MAX
abbrev pub history_max : ℕ
history_max = 64

-- The fields of `Fm`: `hist_count` is the length of the list, which holds the entries that are set. The
-- entries of the array behind it are freed or were never set.
pub record Fm : Type 0 where
  pub cwd : Str
  pub history : List Str
  pub hist_pos : ℕ

-- The end of `fm_window_new`.
unfoldable pub opened_at : Str → Fm
opened_at start = record { cwd = start; history = start ∷ []; hist_pos = 0 }

-- `fm_navigate`
pub navigate : (readable : Bool) (path : Str) → Fm → Fm
navigate readable path fm =
    if readable
    then record fm {
      cwd = path;
      hist_pos = suc fm.hist_pos;
      history =
          if ltb (suc fm.hist_pos) history_max
          then take (suc fm.hist_pos) fm.history ++ path ∷ []
          else fm.history;
    }
    else fm

-- fm->cwd = strdup(fm->history[pos]): none for an entry that is not set.
pub visit : (pos : ℕ) → Fm → Option Fm
visit pos fm = elim (get_elem? fm.history pos) [
  | none ↦ none
  | some path ↦ some (record fm { cwd = path; hist_pos = pos })
]

-- `act_go_back`
pub go_back : Fm → Option Fm
go_back fm = if fm.hist_pos == 0 then some fm else visit (fm.hist_pos - 1) fm

-- `act_go_fwd`
pub go_fwd : Fm → Option Fm
go_fwd fm =
    if leb (length fm.history) (suc fm.hist_pos) then some fm else visit (suc fm.hist_pos) fm

-- `navigate_history` of the buttons, with its own test of the position
pub navigate_history : (pos : ℕ) → Fm → Option Fm
navigate_history pos fm = if leb (length fm.history) pos then some fm else visit pos fm

-- `back_cb`
pub back : Fm → Option Fm
back fm = if fm.hist_pos == 0 then some fm else navigate_history (fm.hist_pos - 1) fm
