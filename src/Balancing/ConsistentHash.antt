-- ===== src/Balancing/ConsistentHash.antt =====
-- apigate-core/src/balancing/consistent_hash.rs. The hash xxh3_64 is a parameter. Lengths are below
-- 2^63, so `buckets as i64` is `buckets`; where the product of `i64` would overflow the model panics,
-- as a debug build does.
pub mod Jump
pub mod Picks
use Prim.Native.Nat.{bit_and}
use apigate.Prelude.{
  ℕ, zero, suc, ◌+◌, ◌-◌, ◌*◌, ◌/◌, ◌%◌, Bool, true, false, Option, none, some, ltb, ◌==◌,
  if◌then◌else◌, Run, done, panic, out_of_fuel, run_bind,
}
use apigate.Str.{Str}
use apigate.Balancing.{AffinityKey, BalanceCtx, Balancer, candidate_len, candidate_index}
use apigate.Balancing.Words.{word, word_max, incr}

pub record ConsistentHash : Type 0 where
  pub offset : ℕ

unfoldable pub new : ConsistentHash
new = record { offset = 0 }

-- `key.wrapping_mul(2862933555777941757).wrapping_add(1)`
pub next_key : ℕ → ℕ
next_key key = (key * 2862933555777941757 % word + 1) % word

-- `(key >> 33) + 1`
abbrev pub divisor : ℕ → ℕ
divisor key = key / 8589934592 + 1

-- `while j < buckets`; `b` is the bit pattern of the signed variable, -1 at first.
pub jump_loop : ℕ → (key b j buckets : ℕ) → Run ℕ
unfolding next_key
jump_loop zero key b j buckets = out_of_fuel
jump_loop (suc fuel) key b j buckets =
    let product = (j + 1) * 2147483648 in
    let rest = jump_loop fuel (next_key key) j (product / divisor (next_key key)) buckets in
    if ltb j buckets then (if ltb product 9223372036854775808 then rest else panic) else done b

unfoldable pub jump_consistent_hash : ℕ → ℕ → Run (Option ℕ)
unfolding jump_loop
jump_consistent_hash key buckets =
    let found = run_bind (jump_loop (buckets + 1) key word_max 0 buckets) (λ b. done (some b)) in
    if buckets == 0 then done none else found

pub pick_candidate : ℕ → BalanceCtx → Run (Option ℕ)
unfolding jump_consistent_hash candidate_len candidate_index
pick_candidate hash ctx =
    run_bind (jump_consistent_hash hash (candidate_len ctx))
      λ found. elim found [ none ↦ done none | some bucket ↦ done (candidate_index ctx bucket) ]

-- `n.is_power_of_two()`: one of the 64 powers.
power_below : ℕ → ℕ → ℕ → Bool
power_below zero power n = false
power_below (suc rounds) power n =
    let rest = power_below rounds (2 * power) n in if n == power then true else rest

pub is_power_of_two : ℕ → Bool
unfolding power_below
is_power_of_two n = power_below 64 1 n

pub rotated : ℕ → ℕ → ℕ
unfolding is_power_of_two
rotated n candidate_len =
    if is_power_of_two candidate_len then bit_and n (candidate_len - 1) else n % candidate_len

module _ (xxh3_64 : Str → ℕ) where
  pub pick_by : BalanceCtx → ConsistentHash → Option AffinityKey → Run (Option ℕ) × ConsistentHash
  unfolding pick_candidate rotated
  pick_by ctx s (some key) = (pick_candidate (xxh3_64 key.text) ctx, s)
  pick_by ctx s none = (
    done (candidate_index ctx (rotated s.offset (candidate_len ctx))),
    record s { offset = incr s.offset },
  )

  unfoldable pub pick : BalanceCtx → ConsistentHash → Run (Option ℕ) × ConsistentHash
  unfolding pick_by
  pick ctx s = if candidate_len ctx == 0 then (done none, s) else pick_by ctx s ctx.affinity

  unfoldable pub balancer : Balancer
  unfolding pick
  balancer = record {
    State = ConsistentHash;
    pick = pick;
    on_start = λ _ s. s;
    on_result = λ _ s. s;
  }
