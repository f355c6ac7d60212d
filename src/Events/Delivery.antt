-- ===== src/Events/Delivery.antt =====
-- What a subscriber of internal/events/events.go finds in its channel.
use mathlib.Core.List.{append_assoc, append-nil}
use revquic.Prelude.{
  ℕ, zero, suc, ◌-◌, ◌≤◌, ◌≡◌, refl, sym, ap, ◌∙◌, some, List, [], ◌∷◌, ◌++◌, arith, ltb, length,
  take, Bool-cases, inl, inr, length-append,
}
use revquic.Prelude.Assoc.{lookup, nat_key}
use revquic.Events.{capacity, Bus, offer, offer_all, publish}

module _ {E : Type 0} where
  -- Several events published one after the other.
  unfoldable pub publish_all : Bus E → List E → Bus E
  publish_all b [] = b
  publish_all b (ev ∷ evs) = publish_all (publish b ev) evs

  take-nil : (n : ℕ) → take {A = E} n [] ≡ []
  take-nil zero = refl
  take-nil (suc n) = refl

  lookup-offer_all :
      (subs : List (ℕ × List E)) (ev : E) (id : ℕ) (ch : List E)
      → lookup id subs ≡ some ch
      → lookup id (offer_all subs ev) ≡ some (offer ch ev)
  unfolding lookup offer_all
  lookup-offer_all [] ev id ch h = cc
  lookup-offer_all ((k, c) ∷ rest) ev id ch h = ground (arith, lookup-offer_all rest ev id ch)

  offer-take :
      (ch evs : List E) (ev : E)
      → length ch ≤ capacity
      → offer ch ev ++ take (capacity - length (offer ch ev)) evs
        ≡ ch ++ take (capacity - length ch) (ev ∷ evs)
  unfolding offer
  offer-take ch evs ev h = elim (Bool-cases (ltb (length ch) capacity)) [
    | inl room ↦
        let one_less : capacity - length ch ≡ suc (capacity - length (ch ++ (ev ∷ []))) =
          ground (arith, length-append ch (ev ∷ [])) in
        rw (room, one_less) (append_assoc ch (ev ∷ []) _)
    | inr full ↦
        let none_left : capacity - length ch ≡ 0 = ground arith in rw (full, none_left) refl
  ]

  offer-le : (ch : List E) (ev : E) → length ch ≤ capacity → length (offer ch ev) ≤ capacity
  unfolding offer
  offer-le ch ev h = ground (arith, length-append ch (ev ∷ []))

  -- Whatever has been published while a subscriber read nothing: its channel holds what was there
  -- before and behind it the first of the new events, in their order, up to 64 in all; the later
  -- events are dropped. No other subscriber changes that.
  pub lookup-publish_all :
      (b : Bus E) (evs : List E) (id : ℕ) (ch : List E)
      → lookup id b.subs ≡ some ch
      → length ch ≤ capacity
      → lookup id (publish_all b evs).subs ≡ some (ch ++ take (capacity - length ch) evs)
  unfolding publish_all publish
  lookup-publish_all b [] id ch h fit =
      h ∙ ap some (sym (ap (λ x. ch ++ x) (take-nil _) ∙ append-nil ch))
  lookup-publish_all b (ev ∷ evs) id ch h fit =
      lookup-publish_all (publish b ev) evs id (offer ch ev) (lookup-offer_all b.subs ev id ch h)
        (offer-le ch ev fit)
      ∙ ap some (offer-take ch evs ev fit)
