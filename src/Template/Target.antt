-- ===== src/Template/Target.antt =====
-- Parsing the rewrite target: the scan of a printed target finds its chunks, within its fuel.
use apigate.Prelude.{
  ℕ, zero, suc, ◌+◌, ◌-◌, ◌<◌, ◌≤◌, ◌≡◌, ◌≢◌, refl, ◌∙◌, List, [], ◌∷◌, ◌++◌, true, false, arith,
  append_assoc, length, drop, is_empty, ok, append-nil, length-append, get_elem?, drop-append,
  get_elem?-append_right, ltb, lt→ltb, ltb-eq-false, ==_ne, get_elem?-ge, some, none, done,
  run_bind,
}
use native.Mathlib.Nat.{add_assoc}
use apigate.Str
use apigate.Str.{Str}
use apigate.Str.Laws.{Free, slice-append, find-append}
use apigate.Template.{
  DstChunkIr, Scan, flush, resolve, push_capture, take_param, step, scan, start,
  parse_rewrite_target, finish,
}
use apigate.Template.Pattern.{Target, print_parts, print_target, IsParts, IsTarget, literal_length}

-- The chunk of a literal, if it has any text.
abbrev pub lit_chunk : Str → List DstChunkIr
lit_chunk [] = []
lit_chunk (x ∷ l) = DstChunkIr.lit (x ∷ l) ∷ []

pub index_of : List Str → Str → ℕ
index_of params n = elim (Str.position n params) [ none ↦ 0 | some k ↦ k ]

pub index_of_lem :
    (params : List Str) (n : Str) (k : ℕ) → Str.position n params ≡ some k → index_of params n ≡ k
unfolding index_of
index_of_lem params n k found = rw (found, index_of)

abbrev pub chunks : List Str → Str → List (Str × Str) → List DstChunkIr
chunks params l [] = lit_chunk l
chunks params l ((n, l') ∷ r) =
    lit_chunk l ++ DstChunkIr.capture (index_of params n) ∷ chunks params l' r

-- The state behind a literal that starts where the last chunk ended.
flushed : Scan → Str → Scan
flushed s l = record s { dst = s.dst ++ lit_chunk l; static_len = s.static_len + length l }

flush_lem :
    (to p l r : Str) (s : Scan) (end : ℕ)
    → to ≡ p ++ (l ++ r)
    → s.lit_start ≡ length p
    → end ≡ length p + length l
    → flush to s end ≡ done (flushed s l)
unfolding flush flushed
flush_lem to p [] r s end e h at =
    let at_end : ltb s.lit_start end ≡ false = ltb-eq-false _ _ (omega arith) in
    let same : s.static_len + 0 ≡ s.static_len = omega arith in
    rw at_end (rw (same, append-nil s.dst))
flush_lem to p (x ∷ l) r s end e h at =
    let more : ltb s.lit_start end ≡ true = lt→ltb _ _ (omega arith) in
    let lit : Str.slice to s.lit_start end ≡ some (x ∷ l) =
      rw (h, at, e) (slice-append p (x ∷ l) r) in
    rw (more, lit)

-- The scan of one byte that is no brace.
step_plain :
    (to : Str) (params : List Str) (s : Scan) (x : ℕ)
    → x ≢ b'{'
    → x ≢ b'}'
    → step to params s x ≡ done (ok (record s { i = s.i + 1 }))
unfolding step
step_plain to params s x h k = rw (==_ne x b'{' h, ==_ne x b'}' k)

get_elem?-middle : (p r : Str) (x : ℕ) → get_elem? (p ++ x ∷ r) (length p) ≡ some x
get_elem?-middle p r x =
    let e : length p ≡ length p + 0 = omega arith in rw e (get_elem?-append_right p (x ∷ r) 0)

module _ (to : Str) (params : List Str) (s : Scan) (fuel : ℕ) where
  scan-step :
      (x : ℕ) (t : Scan)
      → get_elem? to s.i ≡ some x
      → step to params s x ≡ done (ok t)
      → scan (suc fuel) to params s ≡ scan fuel to params t
  unfolding scan
  scan-step x t here one = rw (here, scan) (rw one)

  scan_end : get_elem? to s.i ≡ none → scan (suc fuel) to params s ≡ done (ok s)
  unfolding scan
  scan_end here = rw (here, scan)

-- The scan moves over a literal without a change but of its position.
scan_literal :
    (l p r to : Str) (params : List Str) (s : Scan) (fuel : ℕ)
    → to ≡ p ++ (l ++ r)
    → s.i ≡ length p
    → Free b'{' l
    → Free b'}' l
    → length l ≤ fuel
    → scan fuel to params s ≡ scan (fuel - length l) to params (record s { i = s.i + length l })
scan_literal [] p r to params s fuel e h _ _ _ =
    let a : fuel - 0 ≡ fuel = omega arith in let b : s.i + 0 ≡ s.i = omega arith in rw (a, b)
scan_literal (x ∷ l) p r to params s zero e h _ _ low = absurd (omega arith)
scan_literal (x ∷ l) p r to params s (suc fuel) e h open_free close_free low =
    let here : get_elem? to s.i ≡ some x = rw (e, h) (get_elem?-middle p (l ++ r) x) in
    let e' : to ≡ (p ++ x ∷ []) ++ (l ++ r) = e ∙ rw append_assoc refl in
    let at : s.i + 1 ≡ length (p ++ x ∷ []) = omega (arith, length-append p (x ∷ [])) in
    let later =
      scan_literal l (p ++ x ∷ []) r to params (record s { i = s.i + 1 }) fuel e' at open_free.1
        close_free.1 (omega arith) in
    let rounds : suc fuel - suc (length l) ≡ fuel - length l = omega arith in
    let place : s.i + suc (length l) ≡ s.i + 1 + length l = omega arith in
    scan-step to params s fuel x _ here (step_plain to params s x open_free.0 close_free.0)
    ∙ rw (rounds, place) later

resolve_lem :
    (params : List Str) (n : Str) (k : ℕ)
    → is_empty n ≡ false
    → Str.position n params ≡ some k
    → k < 256
    → resolve params n ≡ ok k
unfolding resolve
resolve_lem params n k full at low = rw (full, at) (rw (lt→ltb k 256 low))

-- One round at an opening brace takes the literal before it and the parameter.
step_param :
    (p l n r to : Str) (params : List Str) (s : Scan) (k : ℕ)
    → to ≡ p ++ (l ++ b'{' ∷ (n ++ b'}' ∷ r))
    → s.lit_start ≡ length p
    → s.i ≡ length p + length l
    → is_empty n ≡ false
    → Free b'}' n
    → Str.position n params ≡ some k
    → k < 256
    → step to params s b'{' ≡ done (ok (push_capture (flushed s l) (s.i + 1 + length n + 1) k))
step_param p l n r to params s k e at_lit at_i full free found low =
    let first : flush to s s.i ≡ done (flushed s l) =
      flush_lem to p l (b'{' ∷ (n ++ b'}' ∷ r)) s s.i e at_lit at_i in
    let q : Str = p ++ (l ++ b'{' ∷ []) in
    let e' : to ≡ q ++ (n ++ b'}' ∷ r) = e ∙ simp append_assoc in
    let at_q : s.i + 1 ≡ length q =
      omega (arith, length-append p (l ++ b'{' ∷ []), length-append l (b'{' ∷ [])) in
    let rest : drop (s.i + 1) to ≡ n ++ b'}' ∷ r = rw (at_q, e') (drop-append q (n ++ b'}' ∷ r)) in
    let name : Str.slice to (s.i + 1) (s.i + 1 + length n) ≡ some n =
      rw (at_q, e') (slice-append q n (b'}' ∷ r)) in
    unfold step take_param flushed in
    rw first (
      rw (rest, find-append b'}' n r free)
        (rw (name, take_param) (rw (resolve_lem params n k full found low))))

get_elem?-brace : (p l r : Str) → get_elem? (p ++ (l ++ b'{' ∷ r)) (length p + length l) ≡ some b'{'
get_elem?-brace p l r =
    get_elem?-append_right p (l ++ b'{' ∷ r) (length l) ∙ get_elem?-middle l r b'{'

finish_lem :
    (to p l : Str) (params : List Str) (s : Scan)
    → to ≡ p ++ l
    → s.lit_start ≡ length p
    → finish to (ok s) ≡ done (ok (s.dst ++ lit_chunk l, s.static_len + length l))
unfolding finish
finish_lem to p l params s e at =
    let e' : to ≡ p ++ (l ++ []) = rw append-nil e in
    let size : length to ≡ length p + length l = rw e (length-append p l) in
    let last : flush to s (length to) ≡ done (flushed s l) =
      flush_lem to p l [] s (length to) e' at size in
    unfold flushed in rw last

-- From the start of a literal on, the scan and its last literal give the printed chunks.
scan_parts :
    (parts : List (Str × Str)) (l p to : Str) (params : List Str) (s : Scan) (fuel : ℕ)
    → to ≡ p ++ print_parts l parts
    → s.lit_start ≡ length p
    → s.i ≡ length p
    → IsParts params l parts
    → length (print_parts l parts) < fuel
    → run_bind (scan fuel to params s) (finish to)
      ≡ done (ok (s.dst ++ chunks params l parts, s.static_len + literal_length l parts))
scan_parts [] l p to params s fuel e at_lit at_i (no_open, no_close) low =
    let e' : to ≡ p ++ (l ++ []) = rw append-nil e in
    let end : length to ≡ s.i + length l = rw e (omega (arith, length-append p l)) in
    let left : fuel - length l ≡ suc (fuel - length l - 1) = omega arith in
    let stop =
      scan_end to params (record s { i = s.i + length l }) (fuel - length l - 1)
        (get_elem?-ge to (s.i + length l) (omega arith)) in
    rw (scan_literal l p [] to params s fuel e' at_i no_open no_close (omega arith))
      (rw left (rw stop (finish_lem to p l params (record s { i = s.i + length l }) e at_lit)))
scan_parts ((n, l') ∷ r) l p to params s fuel e at_lit at_i
      ((no_open, no_close), full, free, (k, found, low_k), h) low =
    let tail : Str = print_parts l' r in
    let s1 : Scan = record s { i = s.i + length l } in
    let t : Scan = push_capture (flushed s1 l) (s.i + length l + 1 + length n + 1) k in
    let q : Str = p ++ (l ++ b'{' ∷ (n ++ b'}' ∷ [])) in
    let on : to ≡ q ++ tail = e ∙ simp append_assoc in
    let size_q : length q ≡ length p + length l + 1 + length n + 1 = omega (
      arith,
      length-append p (l ++ b'{' ∷ (n ++ b'}' ∷ [])),
      length-append l (b'{' ∷ (n ++ b'}' ∷ [])),
      length-append n (b'}' ∷ []),
    ) in
    let size : length (l ++ b'{' ∷ (n ++ b'}' ∷ tail)) ≡ length l + 1 + length n + 1 + length tail =
      omega (arith, length-append l (b'{' ∷ (n ++ b'}' ∷ tail)), length-append n (b'}' ∷ tail)) in
    let left : fuel - length l ≡ suc (fuel - length l - 1) = omega arith in
    let at_s1 : s.i + length l ≡ length p + length l = omega arith in
    let at_t : s.i + length l + 1 + length n + 1 ≡ length q = omega arith in
    let byte : get_elem? to (s.i + length l) ≡ some b'{' =
      rw (at_s1, e) (get_elem?-brace p l (n ++ b'}' ∷ tail)) in
    let round =
      scan-step to params s1 (fuel - length l - 1) b'{' t byte
        (step_param p l n tail to params s1 k e at_lit at_s1 full free found low_k) in
    let ih =
      scan_parts r l' q to params t (fuel - length l - 1) on (unfold push_capture in at_t)
        (unfold push_capture in at_t) h (omega arith) in
    rw
      (scan_literal l p (b'{' ∷ (n ++ b'}' ∷ tail)) to params s fuel e at_i no_open no_close
        (omega arith))
      (rw left (
        rw round (
          ih
          ∙ unfold push_capture flushed in
            simp (index_of_lem params n k found, append_assoc, add_assoc))))

-- The scan of a printed target ends within its fuel, with the chunks of the target.
pub parse_rewrite_target-print :
    (params : List Str) (t : Target)
    → IsTarget params t
    → parse_rewrite_target (print_target t) params
      ≡ done (ok (chunks params t.first t.parts, literal_length t.first t.parts))
unfolding parse_rewrite_target
parse_rewrite_target-print params t h =
    let none_yet : 0 + literal_length t.first t.parts ≡ literal_length t.first t.parts =
      omega arith in
    unfold start in
    scan_parts t.parts t.first [] (print_target t) params start (length (print_target t) + 1) refl
      refl refl h (omega arith)
    ∙ rw none_yet
