-- ===== src/Qos/History.antt =====
-- The capped history of internal/qos/qos.go.
use revquic.Prelude.{
  ℕ, zero, suc, ◌+◌, ◌-◌, ◌≤◌, ◌≡◌, refl, sym, ap, ◌∙◌, List, [], ◌∷◌, ◌++◌, arith, ltb, length,
  drop, length-append, length-drop, Bool-cases, inl, inr,
}
use mathlib.Core.List.{append_assoc, append-nil}
use revquic.Qos.{Event, Tracker, append_event}

unfoldable pub append_all : Tracker → List Event → Tracker
append_all t [] = t
append_all t (ev ∷ evs) = append_all (append_event t ev) evs

module _ {ℓ} {A : Type ℓ} where
  drop-nil : (n : ℕ) → drop {A = A} n [] ≡ []
  drop-nil zero = refl
  drop-nil (suc n) = refl

  drop-drop : (m n : ℕ) (xs : List A) → drop m (drop n xs) ≡ drop (n + m) xs
  drop-drop m zero xs = ap (λ k. drop k xs) {y = zero + m} (omega arith)
  drop-drop m (suc n) [] = drop-nil m ∙ sym (drop-nil (suc n + m))
  drop-drop m (suc n) (x ∷ xs) =
      drop-drop m n xs ∙ ap (λ k. drop k (x ∷ xs)) {x = suc (n + m)} {y = suc n + m} (omega arith)

  drop-append_short : (n : ℕ) (xs ys : List A) → n ≤ length xs → drop n (xs ++ ys) ≡ drop n xs ++ ys
  drop-append_short zero xs ys h = refl
  drop-append_short (suc n) [] ys h = absurd (omega arith)
  drop-append_short (suc n) (x ∷ xs) ys h = drop-append_short n xs ys (omega arith)

  -- The last `cap` elements, at most.
  abbrev pub newest : ℕ → List A → List A
  newest cap xs = drop (length xs - cap) xs

  newest_step :
      (cap : ℕ) (xs ys : List A) → newest cap (newest cap xs ++ ys) ≡ newest cap (xs ++ ys)
  newest_step cap xs ys =
      let k = length xs - cap in
      let size = length-append xs ys in
      let short = length-drop k (xs ++ ys) in
      rw (← drop-append_short k xs ys (omega arith)) (
        drop-drop (length (drop k (xs ++ ys)) - cap) k (xs ++ ys)
        ∙ ap (λ n. drop n (xs ++ ys)) {y = length (xs ++ ys) - cap} (omega arith))

append_event-newest :
    (t : Tracker) (ev : Event)
    → append_event t ev ≡ record t { hist = newest t.hist_cap (t.hist ++ (ev ∷ [])) }
unfolding append_event
append_event-newest t ev = elim (Bool-cases (ltb t.hist_cap (length (t.hist ++ (ev ∷ []))))) [
  | inl over ↦ rw over refl
  | inr fits ↦
      let none : length (t.hist ++ (ev ∷ [])) - t.hist_cap ≡ 0 = ground arith in
      rw (fits, none) refl
]

-- After any further events, the history of a tracker that is within its capacity holds the newest of
-- the old and the new events, in their order, as many as its capacity allows, and nothing else.
pub append_all-newest :
    (t : Tracker) (evs : List Event)
    → length t.hist ≤ t.hist_cap
    → (append_all t evs).hist ≡ newest t.hist_cap (t.hist ++ evs)
unfolding append_all
append_all-newest t [] fit =
    let none : length t.hist - t.hist_cap ≡ 0 = omega arith in rw (append-nil t.hist, none) refl
append_all-newest t (ev ∷ evs) fit =
    let step = append_event-newest t ev in
    let t' : Tracker = record t { hist = newest t.hist_cap (t.hist ++ (ev ∷ [])) } in
    let short = length-drop (length (t.hist ++ (ev ∷ [])) - t.hist_cap) (t.hist ++ (ev ∷ [])) in
    ap (λ x. (append_all x evs).hist) step
    ∙ (append_all-newest t' evs (omega arith)
        ∙ newest_step t.hist_cap (t.hist ++ (ev ∷ [])) evs
        ∙ ap (newest t.hist_cap) (append_assoc t.hist (ev ∷ []) evs))
