-- ===== src/Proxy/Paths/Rendering.antt =====
-- Matching and rendering: a path that instantiates the segments of a template is captured at the
-- values of its parameters.
use apigate.Prelude.{
  ℕ, suc, ◌+◌, ◌≡◌, inl, inr, refl, ap, ◌∙◌, List, [], ◌∷◌, ◌++◌, false, arith, append_assoc,
  length, drop, is_empty, append-nil, length-append, take-append, some, done, map,
}
use mathlib.Core.List.{map-append}
use apigate.Str
use apigate.Str.{Str}
use apigate.Str.Laws.{Free, slice-append, find-append, find-eq-none, eq_refl, position-cons}
use apigate.Rewrite.{SrcSeg, DstChunk}
use apigate.Template.{emit_src, emit_dst}
use apigate.Template.Pattern.{
  Seg, lit, named, joined, fill_seg, names, ir_of_seg, IsRoute, IsFilled, fill_parts, IsParts,
  fill_route,
}
use apigate.Template.Target.{lit_chunk, index_of, chunks, index_of_lem}
use apigate.Proxy.Paths.{
  Range, Rest, cut, match_seg, capture_from, capture_raw, captured, chunk_text, render_chunks,
}

abbrev at : Str → ℕ → Rest
at text offset = record { text = text; offset = offset }

abbrev sources : List Seg → List SrcSeg
sources segs = map emit_src (map ir_of_seg segs)

-- What a segment at `offset` captures.
abbrev own : (Str → Str) → Seg → ℕ → List Range
own v (lit s) offset = []
own v (named n) offset = record { start = offset; end = offset + length (v n) } ∷ []

-- The ranges of the values, in a path whose segments start at `offset`.
abbrev pub ranges : (Str → Str) → List Seg → ℕ → List Range
ranges v [] offset = []
ranges v (seg ∷ segs) offset =
    own v seg offset ++ ranges v segs (offset + length (fill_seg v seg) + 1)

cut_last : (s : Str) (o : ℕ) → Free b'/' s → cut (at s o) (Str.find b'/' s) ≡ (s, at [] 0)
unfolding cut
cut_last s o h = rw (find-eq-none b'/' s h)

drop-behind : (s r : Str) → drop (length s + 1) (s ++ b'/' ∷ r) ≡ r
drop-behind [] r = refl
drop-behind (x ∷ s) r =
    let e : suc (length s) + 1 ≡ suc (length s + 1) = omega arith in rw e (drop-behind s r)

cut_more :
    (s r : Str) (o : ℕ)
    → Free b'/' s
    → cut (at (s ++ b'/' ∷ r) o) (Str.find b'/' (s ++ b'/' ∷ r)) ≡ (s, at r (o + length s + 1))
unfolding cut
cut_more s r o h = rw (find-append b'/' s r h) (rw (take-append s (b'/' ∷ r), drop-behind s r))

is_empty-append : (s t : Str) → is_empty s ≡ false → is_empty (s ++ t) ≡ false
is_empty-append [] t h = cc
is_empty-append (x ∷ s) t h = refl

-- The value of a segment is whole: not empty, and without a slash.
fill_seg_whole :
    (v : Str → Str) (seg : Seg) (segs : List Seg) (seen : List Str)
    → IsRoute seen (seg ∷ segs)
    → IsFilled v (seg ∷ segs)
    → (is_empty (fill_seg v seg) ≡ false) × Free b'/' (fill_seg v seg)
fill_seg_whole v (lit s) segs seen (full, free, _, _) f = (full, free)
fill_seg_whole v (named n) segs seen r (full, free, _) = (full, free)

abbrev seen_after : List Str → Seg → List Str
seen_after seen (lit s) = seen
seen_after seen (named n) = seen ++ n ∷ []

IsRoute-tail :
    (seg : Seg) (segs : List Seg) (seen : List Str)
    → IsRoute seen (seg ∷ segs)
    → IsRoute (seen_after seen seg) segs
IsRoute-tail (lit s) segs seen (_, _, _, h) = h
IsRoute-tail (named n) segs seen (_, _, _, _, h) = h

IsFilled-tail :
    (v : Str → Str) (seg : Seg) (segs : List Seg) → IsFilled v (seg ∷ segs) → IsFilled v segs
IsFilled-tail v (lit s) segs h = h
IsFilled-tail v (named n) segs (_, _, h) = h

match_seg_lem :
    (v : Str → Str) (seg : Seg) (o : ℕ) (caps : List Range)
    → match_seg (emit_src (ir_of_seg seg)) (fill_seg v seg) o caps ≡ some (caps ++ own v seg o)
unfolding match_seg emit_src
match_seg_lem v (lit s) o caps = rw (eq_refl s) (rw append-nil)
match_seg_lem v (named n) o caps = refl

capture_step :
    (src_seg : SrcSeg) (src : List SrcSeg) (text w : Str) (o : ℕ) (rest : Rest)
    (caps caps' : List Range)
    → is_empty text ≡ false
    → cut (at text o) (Str.find b'/' text) ≡ (w, rest)
    → match_seg src_seg w o caps ≡ some caps'
    → capture_from (src_seg ∷ src) (at text o) caps ≡ capture_from src rest caps'
unfolding capture_from
capture_step src_seg src text w o rest caps caps' full here fits =
    let seg : (cut (at text o) (Str.find b'/' text)).0 ≡ w = ap (λ (q : Str × Rest). q.0) here in
    let behind : (cut (at text o) (Str.find b'/' text)).1 ≡ rest =
      ap (λ (q : Str × Rest). q.1) here in
    rw (full, seg) (rw fits (rw behind))

capture_from-fill :
    (v : Str → Str) (segs : List Seg) (o : ℕ) (caps : List Range) (seen : List Str)
    → IsRoute seen segs
    → IsFilled v segs
    → capture_from (sources segs) (at (joined (map (fill_seg v) segs)) o) caps
      ≡ some (caps ++ ranges v segs o)
capture_from-fill v [] o caps seen r f = unfold capture_from in rw append-nil
capture_from-fill v (seg ∷ []) o caps seen r f =
    let w = fill_seg v seg in
    let (full, free) = fill_seg_whole v seg [] seen r f in
    capture_step (emit_src (ir_of_seg seg)) [] w w o (at [] 0) caps (caps ++ own v seg o) full
      (cut_last w o free) (match_seg_lem v seg o caps)
    ∙ unfold capture_from in rw append-nil
capture_from-fill v (seg ∷ seg' ∷ segs) o caps seen r f =
    let w = fill_seg v seg in
    let tail = joined (map (fill_seg v) (seg' ∷ segs)) in
    let (full, free) = fill_seg_whole v seg (seg' ∷ segs) seen r f in
    capture_step (emit_src (ir_of_seg seg)) (sources (seg' ∷ segs)) (w ++ b'/' ∷ tail) w o
      (at tail (o + length w + 1)) caps (caps ++ own v seg o) (is_empty-append w (b'/' ∷ tail) full)
      (cut_more w tail o free) (match_seg_lem v seg o caps)
    ∙ capture_from-fill v (seg' ∷ segs) (o + length w + 1) (caps ++ own v seg o)
        (seen_after seen seg) (IsRoute-tail seg (seg' ∷ segs) seen r)
        (IsFilled-tail v seg (seg' ∷ segs) f)
    ∙ rw append_assoc

pub capture_raw-fill :
    (v : Str → Str) (segs : List Seg)
    → IsRoute [] segs
    → IsFilled v segs
    → capture_raw (sources segs) (fill_route v segs) ≡ some (ranges v segs 1)
unfolding capture_raw
capture_raw-fill v segs r f = capture_from-fill v segs 1 [] [] r f

-- Each value stands in the path at the place of its segment.
abbrev Placed : Str → (Str → Str) → List Seg → ℕ → Type 0
Placed path v [] o = Unit
Placed path v (seg ∷ segs) o =
    ((p : Str) × (t : Str) × (length p ≡ o) × (path ≡ p ++ (fill_seg v seg ++ t)))
    × Placed path v segs (o + length (fill_seg v seg) + 1)

pub Placed-joined :
    (path : Str) (v : Str → Str) (segs : List Seg) (p : Str) (o : ℕ)
    → length p ≡ o
    → path ≡ p ++ joined (map (fill_seg v) segs)
    → Placed path v segs o
Placed-joined path v [] p o size e = tt
Placed-joined path v (seg ∷ []) p o size e = ((p, [], size, rw append-nil e), tt)
Placed-joined path v (seg ∷ seg' ∷ segs) p o size e =
    let w = fill_seg v seg in
    let tail = joined (map (fill_seg v) (seg' ∷ segs)) in
    (
      (p, b'/' ∷ tail, size, e),
      Placed-joined path v (seg' ∷ segs) (p ++ (w ++ b'/' ∷ [])) (o + length w + 1)
          (omega (arith, length-append p (w ++ b'/' ∷ []), length-append w (b'/' ∷ [])))
          (e ∙ simp append_assoc),
    )

captured-zero :
    (path w p t : Str) (caps : List Range) (o : ℕ)
    → length p ≡ o
    → path ≡ p ++ (w ++ t)
    → captured (record { start = o; end = o + length w } ∷ caps) path 0 ≡ done w
unfolding captured
captured-zero path w p t caps o size e = rw (← size, e) (rw (slice-append p w t))

captured-suc :
    (r : Range) (caps : List Range) (path : Str) (k : ℕ)
    → captured (r ∷ caps) path (suc k) ≡ captured caps path k
unfolding captured
captured-suc r caps path k = refl

captured-ranges :
    (path : Str) (v : Str → Str) (segs : List Seg) (o : ℕ) (n : Str) (k : ℕ)
    → Placed path v segs o
    → Str.position n (names segs) ≡ some k
    → captured (ranges v segs o) path k ≡ done (v n)
captured-ranges path v [] o n k h e = unfold Str.position in cc
captured-ranges path v (lit s ∷ segs) o n k h e =
    captured-ranges path v segs (o + length s + 1) n k h.1 e
captured-ranges path v (named m ∷ segs) o n k ((p, t, size, at_p), h) e =
    elim (position-cons n m (names segs) k e) [
      | inl (same, first) ↦
          rw (first, ← same)
            (captured-zero path (v m) p t (ranges v segs (o + length (v m) + 1)) o size at_p)
      | inr (j, later, found) ↦
          rw later (
            captured-suc _ _ path j
            ∙ captured-ranges path v segs (o + length (v m) + 1) n j h found)
    ]

-- Rendering the chunks of a target substitutes the values.
render_chunk_lem :
    (caps : List Range) (path w : Str) (chunk : DstChunk) (dst : List DstChunk) (out : Str)
    → chunk_text caps path chunk ≡ done w
    → render_chunks (chunk ∷ dst) caps path out ≡ render_chunks dst caps path (out ++ w)
unfolding render_chunks
render_chunk_lem caps path w chunk dst out h = rw (h, render_chunks)

render_literal :
    (caps : List Range) (path l : Str) (dst : List DstChunk) (out : Str)
    → render_chunks (map emit_dst (lit_chunk l) ++ dst) caps path out
      ≡ render_chunks dst caps path (out ++ l)
unfolding emit_dst
render_literal caps path [] dst out = rw append-nil
render_literal caps path (x ∷ l) dst out =
    render_chunk_lem caps path (x ∷ l) (DstChunk.lit (x ∷ l)) dst out (unfold chunk_text in refl)

pub render_chunks-fill :
    (path : Str) (v : Str → Str) (segs : List Seg) (l : Str) (parts : List (Str × Str)) (out : Str)
    → Placed path v segs 1
    → IsParts (names segs) l parts
    → render_chunks (map emit_dst (chunks (names segs) l parts)) (ranges v segs 1) path out
      ≡ done (out ++ fill_parts v l parts)
unfolding emit_dst
render_chunks-fill path v segs l [] out h t =
    let caps = ranges v segs 1 in
    let whole : map emit_dst (lit_chunk l) ++ [] ≡ map emit_dst (lit_chunk l) = append-nil _ in
    rw (← whole) (render_literal caps path l [] out ∙ unfold render_chunks in refl)
render_chunks-fill path v segs l ((n, l') ∷ parts) out h (_, _, _, (k, found, _), t) =
    let caps = ranges v segs 1 in
    let later = map emit_dst (chunks (names segs) l' parts) in
    let value : chunk_text caps path (DstChunk.capture (index_of (names segs) n)) ≡ done (v n) =
      rw (index_of_lem (names segs) n k found)
        (unfold chunk_text in captured-ranges path v segs 1 n k h found) in
    rw map-append (
      render_literal caps path l (DstChunk.capture (index_of (names segs) n) ∷ later) out
      ∙ render_chunk_lem caps path (v n) (DstChunk.capture (index_of (names segs) n)) later
          (out ++ l) value
      ∙ render_chunks-fill path v segs l' parts (out ++ l ++ v n) h t
      ∙ simp append_assoc)
