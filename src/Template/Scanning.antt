-- ===== src/Template/Scanning.antt =====
-- The scan of a rewrite target on any text: it ends within its fuel, never slices out of range, and
-- keeps its variables well-formed.
use apigate.Prelude.{
  ℕ, zero, suc, ◌+◌, ◌-◌, ◌<◌, ◌≤◌, ◌≡◌, refl, ◌∙◌, inl, inr, List, [], ◌∷◌, ◌++◌, arith, length,
  take, drop, ok, err, All, All-append, get_elem?, ltb, le→leb, ltb→lt, some, done, Result, ◌==◌,
  Bool-cases, Option-cases, Result-cases, get_elem?-some→lt,
}
use apigate.Str
use apigate.Str.{Str}
use apigate.Str.Laws.{position-get_elem?}
use apigate.Template.{
  DstChunkIr, RewriteTemplateError, Scan, flush, to_u8, resolve, push_capture, take_param, step,
  scan, start, finish, parse_rewrite_target,
}

pub find-lt : (c : ℕ) (s : Str) (k : ℕ) → Str.find c s ≡ some k → k < length s
unfolding Str.find
find-lt c [] k h = cc
find-lt c (x ∷ s) k h = elim (Bool-cases (x == c)) [
  | inl e ↦ ground arith
  | inr e ↦ elim (Option-cases (Str.find c s)) [
    | inl m ↦ cc
    | inr (j, m) ↦ ground (arith, find-lt c s j m)
  ]
]

pub slice-some : (s : Str) (a b : ℕ) → a ≤ b → b ≤ length s → (w : Str) × (Str.slice s a b ≡ some w)
unfolding Str.slice
slice-some s a b h k = (take (b - a) (drop a s), rw (le→leb a b h, le→leb b (length s) k))

pub length-drop : (n : ℕ) (xs : Str) → length (drop n xs) ≡ length xs - n
length-drop zero xs = omega arith
length-drop (suc n) [] = omega arith
length-drop (suc n) (x ∷ xs) = omega (arith, length-drop n xs)

-- A capture names one of the `n` parameters.
abbrev pub InRange : ℕ → DstChunkIr → Type 0
InRange n (DstChunkIr.lit l) = Unit
InRange n (DstChunkIr.capture k) = k < n

unfoldable pub literals : List DstChunkIr → ℕ
literals [] = 0
literals (DstChunkIr.lit l ∷ r) = length l + literals r
literals (DstChunkIr.capture k ∷ r) = literals r

literals-append : (r r' : List DstChunkIr) → literals (r ++ r') ≡ literals r + literals r'
unfolding literals
literals-append [] r' = omega arith
literals-append (DstChunkIr.lit l ∷ r) r' = omega (arith, literals-append r r')
literals-append (DstChunkIr.capture k ∷ r) r' = literals-append r r'

record IsScan (to : Str) (n : ℕ) (s : Scan) : Type 0 where
  behind : s.lit_start ≤ s.i
  within : s.i ≤ length to
  in_range : All (InRange n) s.dst
  static : s.static_len ≡ literals s.dst

flush-IsScan :
    (to : Str) (n : ℕ) (s : Scan) (end : ℕ)
    → IsScan to n s
    → end ≤ length to
    → (t : Scan) × (flush to s end ≡ done t) × IsScan to n t × (t.i ≡ s.i)
unfolding flush
flush-IsScan to n s end v h = elim (Bool-cases (ltb s.lit_start end)) [
  | inl more ↦
      let (w, cut) = slice-some to s.lit_start end (omega (arith, ltb→lt _ _ more)) h in
      (
        record s { dst = s.dst ++ DstChunkIr.lit w ∷ []; static_len = s.static_len + length w },
        rw more (rw cut),
        record {
          behind = v.behind;
          within = v.within;
          in_range = All-append (InRange n) s.dst _ v.in_range (tt, tt);
          static = rw literals-append (unfold literals in omega (arith, v.static));
        },
        refl,
      )
  | inr at_end ↦ (s, rw at_end, v, refl)
]

resolve-lt :
    (params : List Str) (name : Str) (k : ℕ) → resolve params name ≡ ok k → k < length params
unfolding resolve to_u8
resolve-lt params name k h = elim (Option-cases (Str.position name params)) [
  | inl missing ↦ ground arith
  | inr (j, found) ↦
      let inside = get_elem?-some→lt params j (position-get_elem? name params j found) in
      ground arith
]

-- A round either fails with an error or moves on and keeps the state well-formed.
abbrev Moves : Str → ℕ → ℕ → Result RewriteTemplateError Scan → Type 0
Moves to n i (err e) = Unit
Moves to n i (ok t) = IsScan to n t × (i < t.i)

take_param-Moves :
    (to : Str) (params : List Str) (s : Scan) (i : ℕ)
    → IsScan to (length params) s
    → s.i ≡ i
    → i < length to
    → (r : Result RewriteTemplateError Scan) × (take_param to params s
          (Str.find b'}' (drop (s.i + 1) to))
        ≡ done r)
      × Moves to (length params) i r
unfolding take_param
take_param-Moves to params s i v at low = elim (Option-cases (Str.find b'}' (drop (s.i + 1) to))) [
  | inl missing ↦ (err RewriteTemplateError.unclosed_to_parameter, rw missing, tt)
  | inr (close, found) ↦
      let inside : close < length to - (s.i + 1) =
        omega (arith, find-lt b'}' (drop (s.i + 1) to) close found, length-drop (s.i + 1) to) in
      let (name, cut) = slice-some to (s.i + 1) (s.i + 1 + close) (omega arith) (omega arith) in
      elim (Result-cases (resolve params name)) [
        | inr (e, bad) ↦ (err e, rw found (rw cut (rw bad)), tt)
        | inl (k, good) ↦ (
          ok (push_capture s (s.i + 1 + close + 1) k),
          rw found (rw cut (rw good)),
          unfold push_capture in
              (
                record {
                  behind = omega arith;
                  within = omega arith;
                  in_range =
                      All-append (InRange (length params)) s.dst _ v.in_range
                        (resolve-lt params name k good, tt);
                  static = rw literals-append (unfold literals in omega (arith, v.static));
                },
                omega arith,
              ),
        )
      ]
]

step-Moves :
    (to : Str) (params : List Str) (s : Scan) (byte : ℕ)
    → IsScan to (length params) s
    → s.i < length to
    → (r : Result RewriteTemplateError Scan) × (step to params s byte ≡ done r)
      × Moves to (length params) s.i r
unfolding step
step-Moves to params s byte v low = elim (Bool-cases (byte == b'{')) [
  | inl opens ↦
      let (t, flushed, w, same) = flush-IsScan to (length params) s s.i v (omega arith) in
      let (r, taken, moves) = take_param-Moves to params t s.i w same low in
      (r, rw opens (rw flushed taken), moves)
  | inr plain ↦ elim (Bool-cases (byte == b'}')) [
    | inl closes ↦ (err RewriteTemplateError.unmatched_to_close_brace, rw plain (rw closes), tt)
    | inr other ↦ (
      ok (record s { i = s.i + 1 }),
      rw plain (rw other),
      (
        record {
          behind = omega (arith, v.behind);
          within = omega arith;
          in_range = v.in_range;
          static = v.static;
        },
        omega arith,
      ),
    )
  ]
]

-- What the scan comes to.
abbrev Scanned : Str → ℕ → Result RewriteTemplateError Scan → Type 0
Scanned to n (err e) = Unit
Scanned to n (ok t) = IsScan to n t

Scanned-next :
    (to : Str) (params : List Str) (s : Scan) (fuel byte : ℕ) (r : Result RewriteTemplateError Scan)
    → get_elem? to s.i ≡ some byte
    → step to params s byte ≡ done r
    → scan (suc fuel) to params s ≡ elim r [ ok t ↦ scan fuel to params t | err e ↦ done (err e) ]
unfolding scan
Scanned-next to params s fuel byte r here one = rw (here, scan) (rw one)

scan-Scanned :
    (fuel : ℕ) (to : Str) (params : List Str) (s : Scan)
    → IsScan to (length params) s
    → length to < fuel + s.i
    → (r : Result RewriteTemplateError Scan) × (scan fuel to params s ≡ done r)
      × Scanned to (length params) r
scan-Scanned zero to params s v low = absurd (omega (arith, v.within))
scan-Scanned (suc fuel) to params s v low = elim (Option-cases (get_elem? to s.i)) [
  | inl ended ↦ (ok s, unfold scan in rw (ended, scan), v)
  | inr (byte, here) ↦
      let (r, one, moves) = step-Moves to params s byte v (get_elem?-some→lt to s.i here) in
      next r (Scanned-next to params s fuel byte r here one) moves (scan-Scanned fuel to params)
]
  where
    next :
        (r : Result RewriteTemplateError Scan)
        → scan (suc fuel) to params s
          ≡ elim r [ ok t ↦ scan fuel to params t | err e ↦ done (err e) ]
        → Moves to (length params) s.i r
        → ((t : Scan)
            → IsScan to (length params) t
            → length to < fuel + t.i
            → (q : Result RewriteTemplateError Scan) × (scan fuel to params t ≡ done q)
              × Scanned to (length params) q)
        → (q : Result RewriteTemplateError Scan) × (scan (suc fuel) to params s ≡ done q)
          × Scanned to (length params) q
    next (err e) one moves ih = (err e, one, tt)
    next (ok t) one (w, further) ih =
        let (q, later, scanned) = ih t w (omega arith) in (q, one ∙ later, scanned)

start-IsScan : (to : Str) (n : ℕ) → IsScan to n start
unfolding start
start-IsScan to n = record {
  behind = omega arith;
  within = omega arith;
  in_range = tt;
  static = unfold literals in refl;
}

abbrev pub IsParsed : ℕ → Result RewriteTemplateError (List DstChunkIr × ℕ) → Type 0
IsParsed n (err e) = Unit
IsParsed n (ok (dst, static_len)) = All (InRange n) dst × (static_len ≡ literals dst)

finish-IsParsed :
    (to : Str) (n : ℕ) (r : Result RewriteTemplateError Scan)
    → Scanned to n r
    → (q : Result RewriteTemplateError (List DstChunkIr × ℕ)) × (finish to r ≡ done q)
      × IsParsed n q
unfolding finish
finish-IsParsed to n (err e) h = (err e, refl, tt)
finish-IsParsed to n (ok s) h =
    let (t, last, v, _) = flush-IsScan to n s (length to) h (omega arith) in
    (ok (t.dst, t.static_len), rw last, (v.in_range, v.static))

pub parse_rewrite_target-IsParsed :
    (to : Str) (params : List Str)
    → (q : Result RewriteTemplateError (List DstChunkIr × ℕ)) × (parse_rewrite_target to params
        ≡ done q)
      × IsParsed (length params) q
unfolding parse_rewrite_target
parse_rewrite_target-IsParsed to params =
    let (r, scanned, h) =
      scan-Scanned (length to + 1) to params start (start-IsScan to (length params))
        (omega arith) in
    let (q, finished, parsed) = finish-IsParsed to (length params) r h in
    (q, rw scanned finished, parsed)
