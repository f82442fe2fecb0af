-- ===== src/Gitreceive/Progress/Examples.antt =====
-- A concrete exchange.
use builder.Base.{false, ◌≡◌, ◌≢◌, ◌⊎◌, refl}
use builder.Gitreceive.Progress.{
  telling, gone, returned, selecting, State, Reach, start, later, tick, finish,
}
use builder.Gitreceive.Progress.Quiet.{CanGo, progress_lem}

-- One line has been printed, and the caller is done.
abbrev printed_once : State
printed_once = record { caller = telling; printer = selecting; quit_closed = false; printed = 1 }

printed_once-Reach : Reach printed_once
printed_once-Reach = later (later start (tick refl)) (finish refl)

progress_lem_example :
    ((printed_once.caller ≢ gone) ⊎ (printed_once.printer ≡ returned))
    × ((printed_once.caller ≢ telling) ⊎ (printed_once.quit_closed ≡ false))
    × CanGo printed_once
progress_lem_example = progress_lem printed_once-Reach
