-- ===== src/Lb/Members.antt =====
-- Which nodes the filter and the sorting of Pick (internal/lb/lb.go) keep, and when Pick finds one.
use native.Mathlib.Nat.{mod-lt}
use revquic.Prelude.{
  ℕ, zero, suc, ◌%◌, ◌<◌, ◌≡◌, refl, sym, ap, ◌∙◌, ◌⊎◌, inl, inr, ◌↔◌, true, false, Option, none,
  some, List, [], ◌∷◌, String, arith, length, get_elem?, Bool-cases, subst,
}
use revquic.Prelude.Text.{text_less}
use revquic.Lb.{
  Strategy, least_conn, round_robin, random, Node, is_eligible, eligible, insert, sort, id_at,
  choose, pick, is_better, least, count_of,
}

abbrev pub In : Node → List Node → Type 0
In n [] = ⊥
In n (m ∷ ms) = (n ≡ m) ⊎ In n ms

In-insert : (n m : Node) (ms : List Node) → In n (insert m ms) ↔ ((n ≡ m) ⊎ In n ms)
unfolding insert
In-insert n m [] = ((λ h. h), (λ h. h))
In-insert n m (k ∷ ms) = elim (Bool-cases (text_less k.id m.id)) [
  | inl later ↦ rw later (
    (λ h. elim h [
      | inl e ↦ inr (inl e)
      | inr t ↦ elim ((In-insert n m ms).0 t) [ inl e ↦ inl e | inr u ↦ inr (inr u) ]
    ]),
    (λ h. elim h [
      | inl e ↦ inr ((In-insert n m ms).1 (inl e))
      | inr (inl e) ↦ inl e
      | inr (inr u) ↦ inr ((In-insert n m ms).1 (inr u))
    ]),
  )
  | inr here ↦ rw here ((λ h. h), (λ h. h))
]

pub In-sort : (n : Node) (ms : List Node) → In n (sort ms) ↔ In n ms
unfolding sort
In-sort n [] = ((λ h. h), (λ h. h))
In-sort n (m ∷ ms) = (
  (λ h. elim ((In-insert n m (sort ms)).0 h) [ inl e ↦ inl e | inr t ↦ inr ((In-sort n ms).0 t) ]),
  (λ h. (In-insert n m (sort ms)).1 (elim h [ inl e ↦ inl e | inr t ↦ inr ((In-sort n ms).1 t) ])),
)

pub In-eligible :
    (region : String) (n : Node) (ms : List Node)
    → In n (eligible region ms) ↔ ((is_eligible region n ≡ true) × In n ms)
unfolding eligible
In-eligible region n [] = ((λ h. absurd h), (λ h. h.1))
In-eligible region n (m ∷ ms) = elim (Bool-cases (is_eligible region m)) [
  | inl good ↦ rw good (
    (λ h. elim h [
      | inl e ↦ (subst (λ k. is_eligible region k ≡ true) (sym e) good, inl e)
      | inr t ↦ let (a, b) = (In-eligible region n ms).0 t in (a, inr b)
    ]),
    (λ h. elim h.1 [ inl e ↦ inl e | inr t ↦ inr ((In-eligible region n ms).1 (h.0, t)) ]),
  )
  | inr bad ↦ rw bad (
    (λ h. let (a, b) = (In-eligible region n ms).0 h in (a, inr b)),
    (λ h. elim h.1 [
      | inl e ↦ absurd (clash (sym (subst (λ k. is_eligible region k ≡ true) e h.0) ∙ bad))
      | inr t ↦ (In-eligible region n ms).1 (h.0, t)
    ]),
  )
]
  where
    clash : ¬ (true ≡ false)
    clash e = cc

pub get_elem?-In :
    (ms : List Node) (i : ℕ) → i < length ms → (n : Node) × (get_elem? ms i ≡ some n) × In n ms
get_elem?-In [] i h = absurd (omega arith)
get_elem?-In (m ∷ ms) zero h = (m, refl, inl refl)
get_elem?-In (m ∷ ms) (suc i) h = let (n, e, t) = get_elem?-In ms i (omega arith) in (n, e, inr t)

pub In-get_elem? :
    (n : Node) (ms : List Node) → In n ms → (i : ℕ) × (i < length ms) × (get_elem? ms i ≡ some n)
In-get_elem? n [] h = absurd h
In-get_elem? n (m ∷ ms) (inl e) = (0, omega arith, ap some (sym e))
In-get_elem? n (m ∷ ms) (inr t) = let (i, lt, at) = In-get_elem? n ms t in (suc i, omega arith, at)

pub In-least : (best : Node) (ms : List Node) → In (least best ms) (best ∷ ms)
unfolding least
In-least best [] = inl refl
In-least best (m ∷ ms) = elim (Bool-cases (is_better m best)) [
  | inl better ↦
      let step : least best (m ∷ ms) ≡ least m ms = rw better refl in
      subst (λ k. In k (best ∷ m ∷ ms)) (sym step) (inr (In-least m ms))
  | inr not_better ↦
      let step : least best (m ∷ ms) ≡ least best ms = rw not_better refl in
      subst (λ k. In k (best ∷ m ∷ ms)) (sym step)
        (elim (In-least best ms) [ inl e ↦ inl e | inr t ↦ inr (inr t) ])
]

pub id_at-get_elem? :
    (ms : List Node) (i : ℕ) (m : Node) → get_elem? ms i ≡ some m → id_at ms i ≡ some m.id
unfolding id_at
id_at-get_elem? ms i m e = rw (e, id_at) refl

-- What Pick returns on a list that it has filtered and sorted.
choose-In :
    (strategy : Strategy) (first : Node) (rest : List Node) (rr : Option ℕ) (intn : ℕ → ℕ)
    → ((n : ℕ) → 0 < n → intn n < n)
    → (m : Node) × ((choose strategy first rest rr intn).0 ≡ some m.id) × In m (first ∷ rest)
unfolding choose id_at
choose-In round_robin first rest rr intn range =
    let (m, e, t) =
      get_elem?-In (first ∷ rest) (count_of rr % length (first ∷ rest))
        (mod-lt (count_of rr) {m = length (first ∷ rest)} (omega arith)) in
    (m, id_at-get_elem? (first ∷ rest) (count_of rr % length (first ∷ rest)) m e, t)
choose-In random first rest rr intn range =
    let (m, e, t) =
      get_elem?-In (first ∷ rest) (intn (length (first ∷ rest))) (range _ (omega arith)) in
    (m, id_at-get_elem? (first ∷ rest) (intn (length (first ∷ rest))) m e, t)
choose-In least_conn first rest rr intn range = (least first rest, refl, In-least first rest)

-- Pick returns the id of one of the given exits, in the region asked for and with room, if there is
-- such an exit; otherwise it returns no id and leaves the counter. rand.Intn must answer below its
-- bound.
pub pick_cases :
    (strategy : Strategy) (region : String) (nodes : List Node) (rr : Option ℕ) (intn : ℕ → ℕ)
    → ((n : ℕ) → 0 < n → intn n < n)
    → ((m : Node) × ((pick strategy region nodes rr intn).0 ≡ some m.id)
        × (is_eligible region m ≡ true)
        × In m nodes)
      ⊎ ((pick strategy region nodes rr intn ≡ (none, rr))
          × ((m : Node) → ¬ ((is_eligible region m ≡ true) × In m nodes)))
unfolding pick
pick_cases strategy region nodes rr intn range = go (sort (eligible region nodes)) refl
  where
    back :
        (m : Node)
        → In m (sort (eligible region nodes))
        → (is_eligible region m ≡ true) × In m nodes
    back m t = (In-eligible region m nodes).0 ((In-sort m (eligible region nodes)).0 t)

    go :
        (ms : List Node)
        → sort (eligible region nodes) ≡ ms
        → ((m : Node) × ((pick strategy region nodes rr intn).0 ≡ some m.id)
            × (is_eligible region m ≡ true)
            × In m nodes)
          ⊎ ((pick strategy region nodes rr intn ≡ (none, rr))
              × ((m : Node) → ¬ ((is_eligible region m ≡ true) × In m nodes)))
    go [] e = inr (
      rw (e, pick) refl,
      λ m h.
          subst (In m) e ((In-sort m (eligible region nodes)).1 ((In-eligible region m nodes).1 h)),
    )
    go (first ∷ rest) e =
        let (m, chosen, t) = choose-In strategy first rest rr intn range in
        let (good, there) = back m (subst (In m) (sym e) t) in
        inl (m, rw (e, pick) chosen, good, there)
