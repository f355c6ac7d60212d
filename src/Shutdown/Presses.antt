-- ===== src/Shutdown/Presses.antt =====
-- Which signals end the program in internal/shutdown/shutdown.go.
use revquic.Prelude.{
  ◌↔◌, ℕ, ◌-◌, ◌⊎◌, ◌≤◌, ◌≡◌, refl, sym, ◌∙◌, inl, inr, true, false, none, some, List, [], ◌∷◌,
  arith, leb, leb→le, Bool-cases,
}
use revquic.Shutdown.{Signal, terminate, interactive, on_signals}

-- Whether the next signal is a press within the window after a press at `first`.
abbrev pub IsFollowed : ℕ → ℕ → List (Signal × ℕ) → Type 0
IsFollowed window first [] = ⊥
IsFollowed window first ((terminate, now) ∷ rest) = ⊥
IsFollowed window first ((interactive, second) ∷ rest) = second - first ≤ window

-- A SIGTERM, or two presses that follow each other within the window, somewhere among the signals.
abbrev pub IsConfirmed : ℕ → List (Signal × ℕ) → Type 0
IsConfirmed window [] = ⊥
IsConfirmed window ((terminate, now) ∷ rest) = Unit {0}
IsConfirmed window ((interactive, now) ∷ rest) =
    IsFollowed window now rest ⊎ IsConfirmed window rest

leb_of_le : (a b : ℕ) → a ≤ b → leb a b ≡ true
leb_of_le a b h = ground arith

-- The loop in the middle, after a press at `last`.
exits_after :
    (window last : ℕ) (signals : List (Signal × ℕ))
    → ((on_signals window (some last) signals).0 ≡ true)
      ↔ (IsFollowed window last signals ⊎ IsConfirmed window signals)
unfolding on_signals
exits_after window last [] = (
  (λ h. let bad : false ≡ true = h in cc),
  (λ h. elim h [ inl a ↦ elim a [ ] | inr b ↦ elim b [ ] ]),
)
exits_after window last ((terminate, now) ∷ rest) = ((λ h. inr tt), (λ h. refl))
exits_after window last ((interactive, now) ∷ rest) =
    let (onwards, back) = exits_after window now rest in
    elim (Bool-cases (leb (now - last) window)) [
      | inl soon ↦ ((λ h. inl (leb→le (now - last) window soon)), (λ h. rw soon refl))
      | inr late ↦ (
        (λ h. inr (onwards (rw late at h))),
        (λ h. elim h [
          | inl near ↦
              let bad : true ≡ false = sym (leb_of_le (now - last) window near) ∙ late in cc
          | inr rest_ends ↦ rw late (back rest_ends)
        ]),
      )
    ]

-- The signal loop ends the program exactly if SIGTERM is among the signals, or two presses of
-- Ctrl-C or Ctrl-Z one right after the other, the second within the window after the first.
pub on_signals_iff :
    (window : ℕ) (signals : List (Signal × ℕ))
    → ((on_signals window none signals).0 ≡ true) ↔ IsConfirmed window signals
unfolding on_signals
on_signals_iff window [] = ((λ h. let bad : false ≡ true = h in cc), (λ h. elim h [ ]))
on_signals_iff window ((terminate, now) ∷ rest) = ((λ h. tt), (λ h. refl))
on_signals_iff window ((interactive, now) ∷ rest) = exits_after window now rest
