-- ===== src/Fm/Tests.antt =====
-- The theorems on the history at concrete inputs.
use isde.Common.{ℕ, zero, suc, ◌≡◌, refl, true, List, [], ◌∷◌, none, some, Str, codes, arith}
use isde.Fm.History.{Fm, opened_at, navigate, go_back, back}
use isde.Fm.History.Valid.{IsHistory, opened_at-IsHistory, go_back-navigate}
use isde.Fm.History.Overrun.{go_back-overrun}

abbrev home : Fm
home = record { cwd = codes "/home"; history = codes "/home" ∷ []; hist_pos = 0 }

home-IsHistory : IsHistory home
unfolding opened_at
home-IsHistory = opened_at-IsHistory (codes "/home")

go_back-navigate_example :
    (go_back (navigate true (codes "/tmp") home)
      ≡ some (record home { history = codes "/home" ∷ codes "/tmp" ∷ [] }))
    × (back (navigate true (codes "/tmp") home) ≡ go_back (navigate true (codes "/tmp") home))
go_back-navigate_example = go_back-navigate (codes "/tmp") home (omega arith) home-IsHistory

-- n entries that are all /home
abbrev homes : ℕ → List Str
homes zero = []
homes (suc n) = codes "/home" ∷ homes n

abbrev full : Fm
full = record { cwd = codes "/home"; history = homes 64; hist_pos = 63 }

full-IsHistory : IsHistory full
full-IsHistory = record { at = refl; bounded = omega arith }

go_back-overrun_example :
    go_back (navigate true (codes "/b") (navigate true (codes "/a") full)) ≡ none
go_back-overrun_example = go_back-overrun (codes "/a") (codes "/b") full refl full-IsHistory
