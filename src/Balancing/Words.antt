-- ===== src/Balancing/Words.antt =====
-- 64-bit counters, and what the balancers share: the candidates by their position.
use apigate.Prelude.{
  ℕ, zero, suc, ◌+◌, ◌-◌, ◌*◌, ◌/◌, ◌∙◌, ◌%◌, ◌<◌, ◌≡◌, refl, List, [], ◌∷◌, true, some, arith,
  get_elem?, lt→ltb, ltb→lt, get_elem?-lt,
}
use native.Mathlib.Nat.{mod-lt, mod-eq_of_lt, add-mod-mod, div-add-mod, mul-add-mod_self_left}
use apigate.Balancing.{
  CandidateSet, all, indices, BalanceCtx, contains, len_of, index_of, includes, candidate_len,
  candidate_index, is_candidate,
}

abbrev pub word : ℕ
word = 18446744073709551616

abbrev pub word_max : ℕ
word_max = 18446744073709551615

-- `counter.fetch_add(1, Relaxed)` leaves this in the counter; it wraps around.
abbrev pub incr : ℕ → ℕ
incr n = (n + 1) % word

contains-get_elem? :
    (is : List ℕ) (nth : ℕ) {i : ℕ} → get_elem? is nth ≡ some i → contains is i ≡ true
unfolding contains
contains-get_elem? [] nth h = cc
contains-get_elem? (j ∷ is) zero h = ground arith
contains-get_elem? (j ∷ is) (suc nth) {i} h = ground (arith, contains-get_elem? is nth {i = i} h)

includes-index_of :
    (n : ℕ) (cs : CandidateSet) (nth : ℕ) {i : ℕ}
    → index_of n cs nth ≡ some i
    → includes n cs i ≡ true
unfolding index_of includes
includes-index_of n all nth h = ground arith
includes-index_of n (indices is) nth h = contains-get_elem? is nth h

-- The candidate at a position is in the candidate set.
pub is_candidate-candidate_index :
    (ctx : BalanceCtx) (nth i : ℕ) → candidate_index ctx nth ≡ some i → is_candidate ctx i ≡ true
unfolding candidate_index is_candidate
is_candidate-candidate_index ctx nth i h = includes-index_of ctx.pool_len ctx.candidates nth h

index_of-some :
    (n : ℕ) (cs : CandidateSet) (nth : ℕ)
    → nth < len_of n cs
    → (i : ℕ) × (index_of n cs nth ≡ some i)
unfolding len_of index_of
index_of-some n all nth h = (nth, rw (lt→ltb nth n h))
index_of-some n (indices is) nth h = get_elem?-lt is nth h

-- Every position below the number of candidates has a candidate.
pub candidate_index-some :
    (ctx : BalanceCtx) (nth : ℕ)
    → nth < candidate_len ctx
    → (i : ℕ) × (candidate_index ctx nth ≡ some i)
unfolding candidate_len candidate_index
candidate_index-some ctx nth h = index_of-some ctx.pool_len ctx.candidates nth h

-- The position `p` comes at the round `turn`.
pub turn : ℕ → ℕ → ℕ → ℕ
turn next len p = (p + (len - next % len)) % len

pub turn-lt : (next len p : ℕ) → 0 < len → turn next len p < len
unfolding turn
turn-lt next len p h = mod-lt (p + (len - next % len)) h

pub turn_lem : (next len p : ℕ) → p < len → (next + turn next len p) % len ≡ p
unfolding turn
turn_lem next len p h =
    let r : next % len < len = mod-lt next (omega arith) in
    let q = div-add-mod next len in
    let sum : next + (p + (len - next % len)) ≡ len * (next / len + 1) + p = grind arith in
    add-mod-mod next (p + (len - next % len)) len
    ∙ rw sum (mul-add-mod_self_left len (next / len + 1) p ∙ mod-eq_of_lt h)

pub turn_unique :
    (next len j k : ℕ) → j < len → k < len → (next + j) % len ≡ (next + k) % len → j ≡ k
turn_unique next len j k hj hk e =
    grind (arith, div-add-mod (next + j) len, div-add-mod (next + k) len)

pub is_candidate_all :
    (ctx : BalanceCtx) (i : ℕ) → ctx.candidates ≡ all → is_candidate ctx i ≡ true → i < ctx.pool_len
unfolding is_candidate includes
is_candidate_all ctx i every inside = ltb→lt i ctx.pool_len (rw every at inside)

pub candidate_len_all : (ctx : BalanceCtx) → ctx.candidates ≡ all → candidate_len ctx ≡ ctx.pool_len
unfolding candidate_len len_of
candidate_len_all ctx every = rw every refl
