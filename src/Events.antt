-- ===== src/Events.antt =====
-- internal/events/events.go: the bus that fans events out to the subscribers of the admin server.
-- A subscriber's channel is the list of the events that wait in it; it is closed when it is no longer
-- in the map. The mutex makes each method one step.
pub mod Delivery
mod Tests
use revquic.Prelude.{ℕ, ◌+◌, Option, none, some, List, [], ◌∷◌, ◌++◌, ltb, if◌then◌else◌, length}
use revquic.Prelude.Assoc.{lookup, insert, delete, nat_key}

-- The buffer size of a subscription.
abbrev pub capacity : ℕ
capacity = 64

pub record Bus (E : Type 0) : Type 0 where
  pub subs : List (ℕ × List E)
  pub next : ℕ

module _ {E : Type 0} where
  unfoldable pub new_bus : Bus E
  new_bus = record { subs = []; next = 0 }

  -- Subscribe, with the id that the returned function keeps.
  unfoldable pub subscribe : Bus E → Bus E × ℕ
  subscribe b = (record { subs = insert b.next [] b.subs; next = b.next + 1 }, b.next)

  -- The function that Subscribe returns: a second call finds no entry.
  unfoldable pub unsubscribe : Bus E → ℕ → Bus E
  unsubscribe b id = elim (lookup id b.subs) [
    | none ↦ b
    | some ch ↦ record b { subs = delete id b.subs }
  ]

  -- A send that does not wait: a full buffer drops the event.
  unfoldable pub offer : List E → E → List E
  offer ch ev = if ltb (length ch) capacity then ch ++ (ev ∷ []) else ch

  -- The loop of Publish.
  unfoldable pub offer_all : List (ℕ × List E) → E → List (ℕ × List E)
  unfolding offer
  offer_all [] ev = []
  offer_all ((id, ch) ∷ rest) ev = (id, offer ch ev) ∷ offer_all rest ev

  unfoldable pub publish : Bus E → E → Bus E
  unfolding offer_all
  publish b ev = record b { subs = offer_all b.subs ev }
