-- ===== src/Fm/History/Overrun.antt =====
-- `fm_navigate` counts the position on when the history is full, and `act_go_back` does not test it.
use isde.Common.{suc, ◌≡◌, true, none, Str, arith}
use isde.Fm.History.{history_max, Fm, navigate, visit, go_back}
use isde.Fm.History.Valid.{IsHistory, get_elem?-beyond}

-- On a valid history whose position is the last of the array, two more directories and the Back key read
-- an entry of the history that is not set, behind the end of the array.
pub go_back-overrun :
    (p q : Str) (fm : Fm)
    → suc fm.hist_pos ≡ history_max
    → IsHistory fm
    → go_back (navigate true q (navigate true p fm)) ≡ none
unfolding go_back navigate visit
go_back-overrun p q fm full v =
    let beyond = get_elem?-beyond fm.history (suc fm.hist_pos) (omega (arith, v.bounded, full)) in
    ground (arith, beyond)
