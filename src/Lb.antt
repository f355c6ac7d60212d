-- ===== src/Lb.antt =====
-- internal/lb/lb.go: the choice of an exit for a new session.
pub mod Members
pub mod Least
pub mod Rotation
mod Tests
use revquic.Prelude.{
  ℕ, zero, suc, ◌+◌, ◌*◌, ◌%◌, ◌^◌, Bool, true, false, ◌&&◌, ◌||◌, Option, none, some, List, [],
  ◌∷◌, String, str_eq, ltb, ◌==◌, if◌then◌else◌, length, get_elem?,
}
use revquic.Prelude.Int.{ℤ, pos, negsuc, le_zero, below}
use revquic.Prelude.Text.{text_less}

pub data Strategy : Type 0 where
  least_conn round_robin random : Strategy

unfoldable pub parse : String → Strategy
parse s =
    if str_eq s "round-robin" then round_robin else if str_eq s "random" then random else least_conn

-- `active` counts clients, so it is a natural number; the capacity is an int, <= 0 for unlimited.
pub record Node : Type 0 where
  pub id : String
  pub region : String
  pub active : ℕ
  pub capacity : ℤ

unfoldable pub has_spare : Node → Bool
has_spare n = le_zero n.capacity || below n.active n.capacity

-- The divisor of loadFraction; the fraction is `n.active` over it.
unfoldable pub load_divisor : Node → ℕ
load_divisor n = elim n.capacity [
  | pos c ↦ if c == 0 then 1_000_000_000 else c
  | negsuc c ↦ 1_000_000_000
]

-- a.loadFraction() < b.loadFraction(), as fractions of whole numbers.
unfoldable pub less_loaded : Node → Node → Bool
less_loaded a b = ltb (a.active * load_divisor b) (b.active * load_divisor a)

-- The filter of Pick.
unfoldable pub is_eligible : String → Node → Bool
unfolding has_spare
is_eligible region n = str_eq n.region region && has_spare n

unfoldable pub eligible : String → List Node → List Node
eligible region [] = []
eligible region (n ∷ nodes) =
    let rest = eligible region nodes in if is_eligible region n then n ∷ rest else rest

-- sort.Slice by id, as an insertion sort: with distinct ids the sorted list is the only one.
unfoldable pub insert : Node → List Node → List Node
insert n [] = n ∷ []
insert n (m ∷ ms) = let rest = insert n ms in if text_less m.id n.id then m ∷ rest else n ∷ m ∷ ms

unfoldable pub sort : List Node → List Node
sort [] = []
sort (n ∷ nodes) = insert n (sort nodes)

-- The test in the loop of the default strategy.
unfoldable pub is_better : Node → Node → Bool
is_better n best = ltb n.active best.active || (n.active == best.active && less_loaded n best)

unfoldable pub least : Node → List Node → Node
least best [] = best
least best (n ∷ rest) = least (if is_better n best then n else best) rest

-- eligible[i].ID, which is in range for i < len(eligible).
unfoldable pub id_at : List Node → ℕ → Option String
id_at nodes i = elim (get_elem? nodes i) [ none ↦ none | some n ↦ some n.id ]

-- A counter that the caller may not have handed over.
abbrev pub bump : Option ℕ → Option ℕ
bump none = none
bump (some i) = some ((i + 1) % 2 ^ 64)

abbrev pub count_of : Option ℕ → ℕ
count_of none = 0
count_of (some i) = i

-- The choice among the sorted eligible exits, the first of which is `first`. `intn` is what
-- rand.Intn answers to a bound.
unfoldable pub choose : Strategy → Node → List Node → Option ℕ → (ℕ → ℕ) → Option String × Option ℕ
choose round_robin first rest rr intn =
    (id_at (first ∷ rest) (count_of rr % length (first ∷ rest)), bump rr)
choose random first rest rr intn = (id_at (first ∷ rest) (intn (length (first ∷ rest))), rr)
choose least_conn first rest rr intn = (some (least first rest).id, rr)

-- Pick: the chosen id, or `none` for a false second result, and the counter afterwards.
unfoldable pub pick : Strategy → String → List Node → Option ℕ → (ℕ → ℕ) → Option String × Option ℕ
unfolding choose
pick strategy region nodes rr intn = elim (sort (eligible region nodes)) [
  | [] ↦ (none, rr)
  | first ∷ rest ↦ choose strategy first rest rr intn
]
