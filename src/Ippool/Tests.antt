-- ===== src/Ippool/Tests.antt =====
-- Runs of the address pool over 10.8.0.0/29, whose first host is the gateway.
use revquic.Prelude.{ℕ, ◌≡◌, refl, ◌⊎◌, true, false, some, [], ◌∷◌, arith}
use revquic.Proto.Datagram.{put_be}
use revquic.Ippool.{
  Prefix, Pool, masked, ok, err, exhausted, member, remove, new, bit_set, all_ones, is_broadcast,
  usable, wrap, is_free, allocate_loop, grant, allocate, release, next_addr,
}
use revquic.Ippool.Sweep.{IsPrefix, allocate_cases}
use revquic.Ippool.Refine.{Promises, answers, leases, new_refines}
use revquic.Ippool.Ledger.{IsHost, IsValid, allocates, releases, run}

abbrev lan : Prefix
lan = record { addr = 168296448; bits = 29 }

abbrev gateway : ℕ
gateway = 168296449

abbrev first_client : ℕ
first_client = 168296450

abbrev fresh_pool : Pool
fresh_pool = record { prefix = lan; reserved = gateway ∷ []; used = []; next = some gateway }

new_lan : new (some (record { addr = 168296451; bits = 29 })) (gateway ∷ []) ≡ ok fresh_pool
unfolding new
new_lan = refl

lan-IsPrefix : IsPrefix lan
lan-IsPrefix = record { aligned = refl; inside = omega arith; has_base = omega arith }

first_allocated : (allocate fresh_pool).1 ≡ ok first_client
unfolding allocate allocate_loop grant wrap is_free usable is_broadcast all_ones bit_set member
    put_be
first_allocated = refl

abbrev five_out : Pool
five_out = record fresh_pool {
  used = 168296450 ∷ 168296451 ∷ 168296452 ∷ 168296453 ∷ 168296454 ∷ [];
  next = some 168296455;
}

full_exhausted : allocate five_out ≡ (five_out, err exhausted)
unfolding allocate allocate_loop grant wrap is_free usable is_broadcast all_ones bit_set member
    put_be
full_exhausted = refl

released_again : (allocate (release five_out 168296452)).1 ≡ ok 168296452
unfolding allocate allocate_loop grant wrap is_free usable is_broadcast all_ones bit_set member
    put_be release remove
released_again = refl

allocate_cases_example :
    ((a : ℕ) × (is_free fresh_pool (some a) ≡ true)
      × (allocate fresh_pool
          ≡ (record fresh_pool { used = a ∷ []; next = next_addr (some a) }, ok a)))
    ⊎ ((allocate fresh_pool ≡ (fresh_pool, err exhausted))
        × ((a : ℕ) → is_free fresh_pool (some a) ≡ false))
allocate_cases_example = allocate_cases fresh_pool lan-IsPrefix

new_refines_example :
    Promises
      (masked (record { addr = 168296451; bits = 29 }))
      (gateway ∷ [])
      (λ b. false)
      (answers fresh_pool (allocates ∷ releases first_client ∷ allocates ∷ []))
      (leases (run fresh_pool (allocates ∷ releases first_client ∷ allocates ∷ [])))
new_refines_example =
    new_refines (record { addr = 168296451; bits = 29 }) (gateway ∷ []) fresh_pool
      (allocates ∷ releases first_client ∷ allocates ∷ []) (omega arith) (omega arith) new_lan

abbrev one_out : Pool
one_out = record fresh_pool { used = first_client ∷ []; next = some 168296451 }

first_client-IsHost : IsHost lan (gateway ∷ []) first_client
unfolding member
first_client-IsHost = record { above = omega arith; below = omega arith; open_to_all = refl }

one_out-IsValid : IsValid one_out
unfolding member
one_out-IsValid = record {
  framed = lan-IsPrefix;
  distinct = (refl, tt);
  hosts = (first_client-IsHost, tt);
}
