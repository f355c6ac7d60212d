-- ===== src/Lb/Least.antt =====
-- The default strategy of internal/lb/lb.go: the least loaded exit.
use revquic.Prelude.{
  ℕ, ◌*◌, ◌<◌, ◌≤◌, ◌≡◌, refl, sym, ◌∙◌, ◌⊎◌, inl, inr, true, false, Option, some, List, [], ◌∷◌,
  String, arith, Bool-cases, subst,
}
use revquic.Lb.{
  least_conn, Node, is_eligible, eligible, sort, choose, pick, is_better, least, load_divisor,
  less_loaded,
}
use revquic.Lb.Members.{In, In-sort, In-eligible, In-least}

-- `m` carries fewer clients than `n`, or as many and at most the same share of its capacity.
abbrev pub NotBusier : Node → Node → Type 0
NotBusier m n =
    (m.active < n.active)
    ⊎ ((m.active ≡ n.active) × (m.active * load_divisor n ≤ n.active * load_divisor m))

is_better-NotBusier : (n best : Node) → is_better n best ≡ true → NotBusier n best
unfolding is_better less_loaded
is_better-NotBusier n best h = ground arith

not_better-NotBusier : (n best : Node) → is_better n best ≡ false → NotBusier best n
unfolding is_better less_loaded
not_better-NotBusier n best h = ground arith

NotBusier-self : (n : Node) → NotBusier n n
NotBusier-self n = inr (refl, omega arith)

chain : (a b c x y z : ℕ) → a ≡ b → b ≡ c → a * y ≤ b * x → b * z ≤ c * y → a * z ≤ c * x
chain a b c x y z e f u v = grind arith

NotBusier-trans : (k m n : Node) → NotBusier k m → NotBusier m n → NotBusier k n
NotBusier-trans k m n (inl a) (inl b) = inl (omega arith)
NotBusier-trans k m n (inl a) (inr (e, b)) = inl (omega arith)
NotBusier-trans k m n (inr (e, a)) (inl b) = inl (omega arith)
NotBusier-trans k m n (inr (e, a)) (inr (f, b)) = inr (
  e ∙ f,
  chain k.active m.active n.active (load_divisor k) (load_divisor m) (load_divisor n) e f a b,
)

least-NotBusier :
    (best : Node) (ms : List Node) (n : Node) → In n (best ∷ ms) → NotBusier (least best ms) n
unfolding least
least-NotBusier best [] n (inl e) = subst (NotBusier best) (sym e) (NotBusier-self best)
least-NotBusier best [] n (inr t) = absurd t
least-NotBusier best (m ∷ ms) n t = elim (Bool-cases (is_better m best)) [
  | inl better ↦
      let step : least best (m ∷ ms) ≡ least m ms = rw better refl in
      subst (λ k. NotBusier k n) (sym step)
        (elim t [
          | inl e ↦
              NotBusier-trans (least m ms) m n (least-NotBusier m ms m (inl refl))
                (subst (NotBusier m) (sym e) (is_better-NotBusier m best better))
          | inr u ↦ least-NotBusier m ms n u
        ])
  | inr not_better ↦
      let step : least best (m ∷ ms) ≡ least best ms = rw not_better refl in
      subst (λ k. NotBusier k n) (sym step)
        (elim t [
          | inl e ↦ least-NotBusier best ms n (inl e)
          | inr (inl e) ↦
              NotBusier-trans (least best ms) best n (least-NotBusier best ms best (inl refl))
                (subst (NotBusier best) (sym e) (not_better-NotBusier m best not_better))
          | inr (inr u) ↦ least-NotBusier best ms n (inr u)
        ])
]

-- If some exit is in the region and has room, the default strategy returns the id of such an exit that
-- is not busier than any other: it carries the fewest clients, and among those with as few the
-- smallest share of its capacity. The counter is left as it is.
pub pick_least :
    (region : String) (nodes : List Node) (rr : Option ℕ) (intn : ℕ → ℕ) (n : Node)
    → is_eligible region n ≡ true
    → In n nodes
    → (m : Node) × (pick least_conn region nodes rr intn ≡ (some m.id, rr))
      × (is_eligible region m ≡ true)
      × In m nodes
      × NotBusier m n
unfolding pick choose
pick_least region nodes rr intn n good there = go (sort (eligible region nodes)) refl
  where
    go :
        (ms : List Node)
        → sort (eligible region nodes) ≡ ms
        → (m : Node) × (pick least_conn region nodes rr intn ≡ (some m.id, rr))
          × (is_eligible region m ≡ true)
          × In m nodes
          × NotBusier m n
    go [] e = absurd (
        subst (In n) e
          ((In-sort n (eligible region nodes)).1 ((In-eligible region n nodes).1 (good, there))))
    go (first ∷ rest) e =
        let best = least first rest in
        let kept = subst (In best) (sym e) (In-least first rest) in
        let (fine, given) =
          (In-eligible region best nodes).0 ((In-sort best (eligible region nodes)).0 kept) in
        let listed =
          subst (In n) e (
            (In-sort n (eligible region nodes)).1 ((In-eligible region n nodes).1 (good, there))) in
        (best, rw (e, pick) refl, fine, given, least-NotBusier first rest n listed)
