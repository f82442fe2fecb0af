-- ===== src/Gitreceive/Progress.antt =====
-- `progress` of pkg/gitreceive/k8s_util.go with its two callers, `waitForPod` and `build`: a goroutine
-- prints until it is told to quit, and closes the channel on which it was told so. A step is one exchange
-- on a channel, one print, or the end of what the caller does in between.
pub mod Quiet
mod Examples
use builder.Base.{ℕ, suc, Bool, true, false, ◌≡◌}

-- Where the caller stands: before `quit <- true`, at it, at `<-quit`, and behind it.
pub data Caller : Type 0 where
  busy telling awaiting gone : Caller

-- Where the goroutine stands: at its `select`, and at `close(quit)`.
pub data Printer : Type 0 where
  selecting closing returned : Printer

pub record State : Type 0 where
  pub caller : Caller
  pub printer : Printer
  pub quit_closed : Bool
  pub printed : ℕ

pub data Step (s : State) : State → Type 0 where
  -- what the caller has to do is done
  finish : s.caller ≡ busy → Step s (record s { caller = telling })
  -- `case <-tick.C`
  tick : s.printer ≡ selecting → Step s (record s { printed = suc s.printed })
  -- `quit <- true`, and the goroutine's `case <-quit`
  tell :
      s.caller ≡ telling
      → s.printer ≡ selecting
      → s.quit_closed ≡ false
      → Step s (record s { caller = awaiting; printer = closing })
  -- `close(quit)`
  close_quit : s.printer ≡ closing → Step s (record s { printer = returned; quit_closed = true })
  -- `<-quit`, on a closed channel
  await : s.caller ≡ awaiting → s.quit_closed ≡ true → Step s (record s { caller = gone })

abbrev pub init : State
init = record { caller = busy; printer = selecting; quit_closed = false; printed = 0 }

pub data Reach : State → Type 0 where
  start : Reach init
  later : {s t : State} → Reach s → Step s t → Reach t

-- Some steps, one after another.
pub data Steps (s : State) : State → Type 0 where
  none_taken : Steps s s
  then : {t u : State} → Steps s t → Step t u → Steps s u
