-- ===== src/Lb/Tests.antt =====
-- Runs of the exit selection over three exits.
use revquic.Prelude.{ℕ, ◌+◌, ◌<◌, ◌≡◌, refl, inl, true, none, some, List, [], ◌∷◌, arith, length}
use revquic.Prelude.Int.{pos}
use revquic.Prelude.Text.{text_less}
use revquic.Lb.{
  Node, least_conn, round_robin, is_eligible, has_spare, eligible, insert, sort, is_better,
  less_loaded, load_divisor, least, choose, pick,
}
use revquic.Lb.Members.{In}
use revquic.Lb.Least.{NotBusier, pick_least}
use revquic.Lb.Rotation.{pick_rotates}

abbrev small : Node
small = record { id = "b-small"; region = "eu"; active = 4; capacity = pos 10 }

abbrev large : Node
large = record { id = "a-large"; region = "eu"; active = 4; capacity = pos 100 }

abbrev full : Node
full = record { id = "c-full"; region = "eu"; active = 1; capacity = pos 1 }

abbrev exits : List Node
exits = small ∷ full ∷ large ∷ []

abbrev zero_answer : ℕ → ℕ
zero_answer n = 0

picks_larger : pick least_conn "eu" exits none zero_answer ≡ (some "a-large", none)
unfolding pick choose least is_better less_loaded load_divisor sort insert eligible is_eligible
    has_spare text_less
picks_larger = refl

small_eligible : is_eligible "eu" small ≡ true
unfolding is_eligible has_spare
small_eligible = refl

two_eligible : length (sort (eligible "eu" exits)) ≡ 2
unfolding sort insert eligible is_eligible has_spare text_less
two_eligible = refl

pick_least_example :
    (m : Node) × (pick least_conn "eu" exits none zero_answer ≡ (some m.id, none))
    × (is_eligible "eu" m ≡ true)
    × In m exits
    × NotBusier m small
pick_least_example = pick_least "eu" exits none zero_answer small small_eligible (inl refl)

pick_rotates_example :
    (j : ℕ) × (j < length (sort (eligible "eu" exits)))
    × (pick round_robin "eu" exits (some (5 + j)) zero_answer ≡ (some "b-small", some (5 + j + 1)))
pick_rotates_example =
    pick_rotates "eu" exits 5 zero_answer small small_eligible (inl refl)
      (omega (arith, two_eligible))
