-- ===== src/Ratelimit/Tests.antt =====
-- Runs of buckets, mostly of 100 bytes per second with a burst of 300 bytes.
use Prim.Native.Nat.{max}
use revquic.Prelude.{ℕ, ◌+◌, ◌-◌, ◌*◌, ◌^◌, ◌≤◌, ◌≡◌, refl, true, false, some, [], ◌∷◌, arith}
use revquic.Ratelimit.{Bucket, new_bucket, refill, take_tokens, allow}
use revquic.Ratelimit.Double.{one, of_int, round, spacing, nearest, seconds}
use revquic.Ratelimit.Seconds.{giga}
use revquic.Ratelimit.Budget.{run, latest, rounded, unrounded, new_bucket_budget, allow_after_wait}

abbrev start : ℕ
start = 5_000_000_000

abbrev bucket : Bucket
bucket = record { rate = of_int 100; burst = of_int 300; tokens = 0; last = some start }

-- The burst goes out, then a second refills 100 bytes.
burst_then_refill :
    (run
      (some (new_bucket (of_int 100) (of_int 300)))
      ((start, 300) ∷ (start, 1) ∷ (start + giga, 100) ∷ (start + giga, 1) ∷ [])).1
    ≡ 400
unfolding run allow refill take_tokens new_bucket seconds round spacing nearest one
burst_then_refill = refl

-- 0.29 * 100 is below 29 as a float64, so 290 ms are not enough for 29 bytes.
short_of_29 : (allow (some bucket) (start + 290_000_000) 29).1 ≡ false
unfolding allow refill take_tokens seconds round spacing nearest one
short_of_29 = refl

-- Within a nanosecond a bucket can let through a little more than its burst and its refill.
over_by_rounding :
    (run (some (new_bucket (of_int 999_999_999) 0)) ((1, 100) ∷ (2, 999_999_900) ∷ [])).1
    ≡ 1_000_000_000
unfolding run allow refill take_tokens new_bucket seconds round spacing nearest one
over_by_rounding = refl

new_bucket_budget_example :
    unrounded ^ 2
      * (giga
          * of_int
              (run
                (some (new_bucket (of_int 100) (of_int 300)))
                ((start, 300) ∷ (start + giga, 100) ∷ [])).1)
    ≤ rounded ^ 2
      * (giga * max (of_int 100) (of_int 300)
          + (latest start ((start + giga, 100) ∷ []) - start) * of_int 100)
new_bucket_budget_example =
    new_bucket_budget (of_int 100) (of_int 300) start 300 ((start + giga, 100) ∷ []) (omega arith)

allow_after_wait_example : (allow (some bucket) (start + giga) 99).1 ≡ true
allow_after_wait_example =
    allow_after_wait bucket start (start + giga) 99 (omega arith) refl (omega arith) (omega arith)
