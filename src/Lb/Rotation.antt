-- ===== src/Lb/Rotation.antt =====
-- The round-robin strategy of internal/lb/lb.go over successive calls.
use native.Mathlib.Nat.{mod-lt, mod-add-mod, add-mod_right, mod-eq_of_lt}
use revquic.Prelude.{
  ℕ, ◌+◌, ◌-◌, ◌%◌, ◌^◌, ◌<◌, ◌≡◌, refl, sym, ap, ◌∙◌, true, some, List, [], ◌∷◌, String, arith,
  leb, Bool-cases, inl, inr, length, subst,
}
use revquic.Lb.{round_robin, Node, is_eligible, eligible, sort, choose, pick}
use revquic.Lb.Members.{In, In-sort, In-eligible, In-get_elem?, id_at-get_elem?}

-- Some counter among `k` successive ones is `p` modulo `k`.
next_hit : (i k p : ℕ) → p < k → (j : ℕ) × (j < k) × ((i + j) % k ≡ p)
next_hit i k p h =
    let r : i % k < k = mod-lt i {m = k} (omega arith) in
    elim (Bool-cases (leb (i % k) p)) [
      | inl up ↦ (
        p - i % k,
        ground arith,
        sym (mod-add-mod i k (p - i % k)) ∙ ap (λ x. x % k) {y = p} (ground arith) ∙ mod-eq_of_lt h,
      )
      | inr round ↦ (
        p + k - i % k,
        ground arith,
        sym (mod-add-mod i k (p + k - i % k))
            ∙ ap (λ x. x % k) {y = p + k} (ground arith)
            ∙ add-mod_right p k
            ∙ mod-eq_of_lt h,
      )
    ]

-- While the exits stay as they are, round robin returns every eligible exit of the region within as
-- many successive calls as there are eligible exits: whatever the counter is at, one of these calls
-- returns the id of that exit and moves the counter on by one. The counter must not wrap meanwhile.
pub pick_rotates :
    (region : String) (nodes : List Node) (i : ℕ) (intn : ℕ → ℕ) (n : Node)
    → is_eligible region n ≡ true
    → In n nodes
    → i + length (sort (eligible region nodes)) < 2 ^ 64
    → (j : ℕ) × (j < length (sort (eligible region nodes)))
      × (pick round_robin region nodes (some (i + j)) intn ≡ (some n.id, some (i + j + 1)))
unfolding pick choose
pick_rotates region nodes i intn n good there room = go (sort (eligible region nodes)) refl
  where
    listed : In n (sort (eligible region nodes))
    listed = (In-sort n (eligible region nodes)).1 ((In-eligible region n nodes).1 (good, there))

    go :
        (ms : List Node)
        → sort (eligible region nodes) ≡ ms
        → (j : ℕ) × (j < length (sort (eligible region nodes)))
          × (pick round_robin region nodes (some (i + j)) intn ≡ (some n.id, some (i + j + 1)))
    go [] e = absurd (subst (In n) e listed)
    go (first ∷ rest) e =
        let ms = first ∷ rest in
        let (p, short, at) = In-get_elem? n ms (subst (In n) e listed) in
        let (j, near, hit) = next_hit i (length ms) p short in
        let found = id_at-get_elem? ms p n at in
        let size = ap length e in
        let bumped : (i + j + 1) % 2 ^ 64 ≡ i + j + 1 = mod-eq_of_lt (omega arith) in
        (j, omega arith, rw (e, pick) (rw (hit, found, bumped, choose) refl))
