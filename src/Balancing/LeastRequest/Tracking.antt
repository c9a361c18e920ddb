-- ===== src/Balancing/LeastRequest/Tracking.antt =====
-- The counters of requests in flight, over sequences of starts and results.
use apigate.Prelude.{
  ℕ, ◌+◌, ◌-◌, ◌*◌, ◌%◌, ◌<◌, ◌≤◌, ◌≡◌, refl, ap, ◌∙◌, List, [], ◌∷◌, Option, none, some, arith,
  ◌==◌, if◌then◌else◌, get_elem?, Bool-cases, inl, inr, get_elem?-some→lt, get_elem?-set_self,
  get_elem?-set_ne, ==_iff,
}
use apigate.Balancing.{StartEvent, ResultEvent}
use apigate.Balancing.Words.{word, word_max, incr}
use apigate.Balancing.LeastRequest.{LeastRequest, bump, decr, on_start, on_result}

-- What the dispatcher reports to a balancer; a request that is dropped between the two reports no
-- result.
pub data Event : Type 0 where
  started : StartEvent → Event
  finished : ResultEvent → Event

pub report : List Event → LeastRequest → LeastRequest
unfolding on_start on_result
report [] s = s
report (started e ∷ events) s = report events (on_start e s)
report (finished e ∷ events) s = report events (on_result e s)

-- How often a backend occurs among the starts, and among the results.
abbrev pub starts : ℕ → List Event → ℕ
starts j [] = 0
starts j (started e ∷ events) = (if e.backend_index == j then 1 else 0) + starts j events
starts j (finished e ∷ events) = starts j events

abbrev pub results : ℕ → List Event → ℕ
results j [] = 0
results j (started e ∷ events) = results j events
results j (finished e ∷ events) = (if e.backend_index == j then 1 else 0) + results j events

bump_lem :
    (f : ℕ → ℕ) (slots : List ℕ) (idx j n : ℕ) (o : Option ℕ)
    → get_elem? slots idx ≡ o
    → get_elem? slots j ≡ some n
    → get_elem? (bump f slots idx o) j ≡ some (if idx == j then f n else n)
unfolding bump
bump_lem f slots idx j n none e h = elim (Bool-cases (idx == j)) [
  | inl same ↦ let here = (==_iff idx j).0 same in let e' = rw here at e in cc
  | inr other ↦ rw other h
]
bump_lem f slots idx j n (some m) e h = elim (Bool-cases (idx == j)) [
  | inl same ↦
      let here = (==_iff idx j).0 same in
      let e' : get_elem? slots j ≡ some m = rw here at e in
      let value : m ≡ n = cc in
      rw (same, here)
        (get_elem?-set_self slots j (f m) (get_elem?-some→lt slots j h)
          ∙ ap (λ k. some (f k)) value)
  | inr other ↦ rw other (get_elem?-set_ne slots idx j _ (λ k. ground arith) ∙ h)
]

-- The counter of a backend after the events, from `n`.
after : ℕ → List Event → ℕ → ℕ
after j [] n = n
after j (started e ∷ events) n = after j events (if e.backend_index == j then incr n else n)
after j (finished e ∷ events) n = after j events (if e.backend_index == j then decr n else n)

abbrev pub in_slots : List ℕ → ℕ → LeastRequest
in_slots slots offset = record { in_flight = some slots; offset = offset }

report-after :
    (events : List Event) (slots : List ℕ) (offset j n : ℕ)
    → get_elem? slots j ≡ some n
    → (slots' : List ℕ) × (report events (in_slots slots offset) ≡ in_slots slots' offset)
      × (get_elem? slots' j ≡ some (after j events n))
unfolding report after
report-after [] slots offset j n h = (slots, refl, h)
report-after (started e ∷ events) slots offset j n h =
    report-after events (bump incr slots e.backend_index (get_elem? slots e.backend_index)) offset j
      _ (bump_lem incr slots e.backend_index j n _ refl h)
report-after (finished e ∷ events) slots offset j n h =
    report-after events (bump decr slots e.backend_index (get_elem? slots e.backend_index)) offset j
      _ (bump_lem decr slots e.backend_index j n _ refl h)

after_lem :
    (events : List Event) (j n : ℕ)
    → n < word
    → after j events n ≡ (n + starts j events + word_max * results j events) % word
unfolding after
after_lem [] j n h = omega arith
after_lem (started e ∷ events) j n h = elim (Bool-cases (e.backend_index == j)) [
  | inl same ↦ rw same (omega (arith, after_lem events j (incr n) (omega arith)))
  | inr other ↦ rw other (omega (arith, after_lem events j n h))
]
after_lem (finished e ∷ events) j n h = elim (Bool-cases (e.backend_index == j)) [
  | inl same ↦ rw same (omega (arith, after_lem events j (decr n) (omega arith)))
  | inr other ↦ rw other (omega (arith, after_lem events j n h))
]

-- From a counter at zero, after any events of which no more are results than starts of the backend
-- and fewer than 2^64 are starts, the counter is exactly the number of requests of the backend that
-- have started and reported no result. A request that is dropped after its start stays counted.
pub report_in_flight :
    (events : List Event) (slots : List ℕ) (offset j : ℕ)
    → get_elem? slots j ≡ some 0
    → results j events ≤ starts j events
    → starts j events < word
    → (slots' : List ℕ) × (report events (in_slots slots offset) ≡ in_slots slots' offset)
      × (get_elem? slots' j ≡ some (starts j events - results j events))
report_in_flight events slots offset j h paired low =
    let (slots', reported, value) = report-after events slots offset j 0 h in
    let counted : after j events 0 ≡ starts j events - results j events =
      omega (arith, after_lem events j 0 (omega arith)) in
    (slots', reported, value ∙ ap some counted)
