-- ===== src/Balancing.antt =====
-- apigate-core/src/balancing/mod.rs, with `CandidateSet` and `AffinityKey` of
-- apigate-core/src/routing/mod.rs. A balancer sees a pool through its length alone, so the context
-- keeps that.
pub mod Words
pub mod RoundRobin
pub mod ConsistentHash
pub mod LeastRequest
pub mod LeastTime
pub mod Contract
use apigate.Prelude.{
  ℕ, List, [], ◌∷◌, Bool, true, false, Option, none, some, ltb, ◌==◌, if◌then◌else◌, length,
  get_elem?, Run,
}
use apigate.Str.{Str}

-- The text of an affinity key; whether it is borrowed or owned makes no difference.
pub record AffinityKey : Type 0 where
  pub text : Str

pub data CandidateSet : Type 0 where
  all : CandidateSet
  indices : List ℕ → CandidateSet

pub record BalanceCtx : Type 0 where
  pub service : Str
  pub affinity : Option AffinityKey
  pub pool_len : ℕ
  pub candidates : CandidateSet

pub len_of : ℕ → CandidateSet → ℕ
len_of pool_len all = pool_len
len_of pool_len (indices is) = length is

pub index_of : ℕ → CandidateSet → ℕ → Option ℕ
index_of pool_len all nth = if ltb nth pool_len then some nth else none
index_of pool_len (indices is) nth = get_elem? is nth

pub contains : List ℕ → ℕ → Bool
contains [] i = false
contains (j ∷ is) i = let rest = contains is i in if j == i then true else rest

pub includes : ℕ → CandidateSet → ℕ → Bool
unfolding contains
includes pool_len all i = ltb i pool_len
includes pool_len (indices is) i = contains is i

unfoldable pub candidate_len : BalanceCtx → ℕ
unfolding len_of
candidate_len ctx = len_of ctx.pool_len ctx.candidates

unfoldable pub candidate_index : BalanceCtx → ℕ → Option ℕ
unfolding index_of
candidate_index ctx nth = index_of ctx.pool_len ctx.candidates nth

unfoldable pub is_candidate : BalanceCtx → ℕ → Bool
unfolding includes
is_candidate ctx backend_idx = includes ctx.pool_len ctx.candidates backend_idx

pub data ProxyErrorKind : Type 0 where
  invalid_upstream_uri upstream_request no_backends timeout : ProxyErrorKind

pub record StartEvent : Type 0 where
  pub service : Str
  pub backend_index : ℕ

-- `head_latency` is in microseconds.
pub record ResultEvent : Type 0 where
  pub service : Str
  pub backend_index : ℕ
  pub status : Option ℕ
  pub error : Option ProxyErrorKind
  pub head_latency : ℕ

-- The trait `Balancer`: the state that an implementation keeps behind atomics, and its methods. A
-- pick can panic.
pub record Balancer : Type 1 where
  pub State : Type 0
  pub pick : BalanceCtx → State → Run (Option ℕ) × State
  pub on_start : StartEvent → State → State
  pub on_result : ResultEvent → State → State
