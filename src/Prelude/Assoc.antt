-- ===== src/Prelude/Assoc.antt =====
-- Go maps as association lists over a key with a Boolean equality: at most one entry per key is
-- made by `insert`, and `delete` removes every entry of its key.
use revquic.Prelude.{
  ℕ, ◌≡◌, refl, ◌↔◌, Bool, true, false, Option, none, some, List, [], ◌∷◌, arith, if◌then◌else◌,
  ==_iff, String, str_eq, eq_iff, ◌==◌ as nat_eq,
}

pub record Key {ℓ} (K : Type ℓ) : Type ℓ where
  pub beq : K → K → Bool
  pub beq_iff : (a b : K) → (beq a b ≡ true) ↔ (a ≡ b)

instance abbrev pub nat_key : Key ℕ
nat_key = record { beq = nat_eq; beq_iff = ==_iff }

instance abbrev pub string_key : Key String
string_key = record { beq = str_eq; beq_iff = eq_iff }

-- Texts as lists of bytes.
abbrev pub bytes_eq : List ℕ → List ℕ → Bool
bytes_eq [] [] = true
bytes_eq [] (b ∷ bs) = false
bytes_eq (a ∷ xs) [] = false
bytes_eq (a ∷ xs) (b ∷ bs) = let rest = bytes_eq xs bs in if nat_eq a b then rest else false

pub bytes_eq_iff : (xs ys : List ℕ) → (bytes_eq xs ys ≡ true) ↔ (xs ≡ ys)
bytes_eq_iff [] [] = ground arith
bytes_eq_iff [] (y ∷ ys) = ground arith
bytes_eq_iff (x ∷ xs) [] = ground arith
bytes_eq_iff (x ∷ xs) (y ∷ ys) = ground (arith, bytes_eq_iff xs ys)

instance abbrev pub bytes_key : Key (List ℕ)
bytes_key = record { beq = bytes_eq; beq_iff = bytes_eq_iff }

pub beq_self {ℓ} : {K : Type ℓ} ⦃k : Key K⦄ (a : K) → k.beq a a ≡ true
beq_self ⦃k⦄ a = (k.beq_iff a a).1 refl

module _ {ℓ κ} {K : Type ℓ} {V : Type κ} ⦃k : Key K⦄ where
  -- m[key]
  unfoldable pub lookup : K → List (K × V) → Option V
  lookup a [] = none
  lookup a ((b, v) ∷ m) = if k.beq b a then some v else lookup a m

  -- m[key] = value
  unfoldable pub insert : K → V → List (K × V) → List (K × V)
  insert a v [] = (a, v) ∷ []
  insert a v ((b, w) ∷ m) = if k.beq b a then (a, v) ∷ m else (b, w) ∷ insert a v m

  -- delete(m, key)
  unfoldable pub delete : K → List (K × V) → List (K × V)
  delete a [] = []
  delete a ((b, w) ∷ m) = let rest = delete a m in if k.beq b a then rest else (b, w) ∷ rest

  pub lookup-insert :
      (a b : K) (v : V) (m : List (K × V))
      → lookup b (insert a v m) ≡ (if k.beq a b then some v else lookup b m)
  unfolding lookup insert
  lookup-insert a b v [] = refl
  lookup-insert a b v ((c, w) ∷ m) =
      ground (arith, k.beq_iff a b, k.beq_iff c a, k.beq_iff c b, lookup-insert a b v m)

  pub lookup-delete :
      (a b : K) (m : List (K × V))
      → lookup b (delete a m) ≡ (if k.beq a b then none else lookup b m)
  unfolding lookup delete
  lookup-delete a b [] = ground arith
  lookup-delete a b ((c, w) ∷ m) =
      ground (arith, k.beq_iff a b, k.beq_iff c a, k.beq_iff c b, lookup-delete a b m)

  delete_absent : (a : K) (m : List (K × V)) → lookup a m ≡ none → delete a m ≡ m
  unfolding lookup delete
  delete_absent a [] h = refl
  delete_absent a ((c, w) ∷ m) h = ground (arith, delete_absent a m)

  -- Taking an entry back out that was not there before.
  pub delete-insert :
      (a : K) (v : V) (m : List (K × V)) → lookup a m ≡ none → delete a (insert a v m) ≡ m
  unfolding lookup insert delete
  delete-insert a v [] h = ground (arith, beq_self a)
  delete-insert a v ((c, w) ∷ m) h = ground (arith, delete-insert a v m)
