-- ===== src/Shutdown/Tests.antt =====
-- Presses of Ctrl-C at some times.
use revquic.Prelude.{◌↔◌, ◌≡◌, refl, true, none, [], ◌∷◌}
use revquic.Prelude.Int.{pos}
use revquic.Shutdown.Presses.{IsConfirmed, on_signals_iff}
use revquic.Shutdown.{interactive, terminate, window_of, on_signals}

late_then_confirmed :
    on_signals
      (window_of (pos 0))
      none
      ((interactive, 0) ∷ (interactive, 4_000_000_000) ∷ (interactive, 5_000_000_000) ∷ [])
    ≡ (true, 2)
unfolding on_signals window_of
late_then_confirmed = refl

terminates_at_once : on_signals 1 none ((terminate, 0) ∷ []) ≡ (true, 0)
unfolding on_signals
terminates_at_once = refl

on_signals_iff_example :
    ((on_signals 3 none ((interactive, 0) ∷ (interactive, 2) ∷ [])).0 ≡ true)
    ↔ IsConfirmed 3 ((interactive, 0) ∷ (interactive, 2) ∷ [])
on_signals_iff_example = on_signals_iff 3 ((interactive, 0) ∷ (interactive, 2) ∷ [])
