-- ===== src/Shutdown.antt =====
-- internal/shutdown/shutdown.go: the signals that end the client and the exit.
-- Times are in nanoseconds; a time.Time that is zero is `none`. The channel of the signals is the list
-- of those that arrive, each with the time at which it is handled.
pub mod Presses
mod Tests
use revquic.Prelude.{
  ◌+◌, ℕ, ◌-◌, Bool, true, false, Option, none, some, List, [], ◌∷◌, leb, if◌then◌else◌,
}
use revquic.Prelude.Int.{ℤ, pos, negsuc}

-- SIGTERM, or a signal of the terminal that wants to be repeated.
pub data Signal : Type 0 where
  terminate interactive : Signal

-- The window after the check of the argument: three seconds stand for every value <= 0.
unfoldable pub window_of : ℤ → ℕ
window_of (pos n) = if leb n 0 then 3_000_000_000 else n
window_of (negsuc n) = 3_000_000_000

-- Whether a press confirms the one before.
abbrev pub confirms : ℕ → Option ℕ → ℕ → Bool
confirms window none now = false
confirms window (some last) now = leb (now - last) window

-- The loop of OnSignals: whether onExit is called, and how many hints are logged.
unfoldable pub on_signals : ℕ → Option ℕ → List (Signal × ℕ) → Bool × ℕ
on_signals window last [] = (false, 0)
on_signals window last ((terminate, now) ∷ rest) = (true, 0)
on_signals window last ((interactive, now) ∷ rest) =
    let (exits, hints) = on_signals window (some now) rest in
    if confirms window last now then (true, 0) else (exits, hints + 1)
