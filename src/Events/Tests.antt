-- ===== src/Events/Tests.antt =====
-- A bus with two subscribers, one of which leaves.
use revquic.Prelude.{ℕ, ◌-◌, ◌≡◌, refl, some, [], ◌∷◌, ◌++◌, arith, take}
use revquic.Prelude.Assoc.{lookup, insert, delete, nat_key}
use revquic.Events.{capacity, Bus, new_bus, subscribe, unsubscribe, offer, offer_all, publish}
use revquic.Events.Delivery.{publish_all, lookup-publish_all}

abbrev pair : Bus ℕ
pair = record { subs = (0, []) ∷ (1, 7 ∷ []) ∷ []; next = 2 }

subscribes_second :
    (subscribe (subscribe (new_bus {E = ℕ})).0).0
    ≡ record { subs = (0, []) ∷ (1, []) ∷ []; next = 2 }
unfolding subscribe new_bus insert
subscribes_second = refl

leaves_first :
    publish (unsubscribe (unsubscribe pair 0) 0) 9
    ≡ record { subs = (1, 7 ∷ 9 ∷ []) ∷ []; next = 2 }
unfolding publish unsubscribe offer_all offer lookup delete
leaves_first = refl

lookup-publish_all_example :
    lookup 1 (publish_all pair (8 ∷ 9 ∷ [])).subs
    ≡ some ((7 ∷ []) ++ take (capacity - 1) (8 ∷ 9 ∷ []))
unfolding lookup
lookup-publish_all_example = lookup-publish_all pair (8 ∷ 9 ∷ []) 1 (7 ∷ []) refl (omega arith)
