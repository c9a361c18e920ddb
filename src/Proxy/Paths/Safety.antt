-- ===== src/Proxy/Paths/Safety.antt =====
-- Rendering never panics: the captures of a path lie within it, and a well-formed template refers
-- only to captures that were made.
use apigate.Prelude.{
  ℕ, zero, suc, ◌+◌, ◌<◌, ◌≤◌, ◌≡◌, refl, sym, ◌∙◌, ◌⊎◌, inl, inr, List, [], ◌∷◌, ◌++◌, true, false,
  arith, length, take, is_empty, All, All-append, All-get_elem?, length-append, get_elem?-lt, some,
  none, done, Option, Bool-cases, Option-cases,
}
use apigate.Str
use apigate.Str.{Str}
use apigate.Str.Laws.{strip_prefix-eq-some}
use apigate.Rewrite.{SrcSeg, DstChunk, RewriteTemplate}
use apigate.Template.Scanning.{find-lt, slice-some, length-drop}
use apigate.Template.Safety.{param_count, IsCapture, IsTemplate}
use apigate.Proxy.Paths.{
  Range, Rest, cut, match_seg, capture_from, capture_content, capture_raw, captured, chunk_text,
  render_chunks, push_query, render_template,
}

-- A range of bytes of a text of that size.
pub record IsWithin (size : ℕ) (r : Range) : Type 0 where
  ordered : r.start ≤ r.end
  bounded : r.end ≤ size

-- What is left of the path is its end, or nothing.
abbrev IsRest : ℕ → Rest → Type 0
IsRest size rest = (length rest.text ≡ 0) ⊎ (rest.offset + length rest.text ≡ size)

-- The captures that are made.
record AreCaptures (size n : ℕ) (caps : List Range) : Type 0 where
  number : length caps ≡ n
  within : All (IsWithin size) caps

is_empty-pos : (s : Str) → is_empty s ≡ false → 0 < length s
is_empty-pos [] h = cc
is_empty-pos (x ∷ s) h = omega arith

length-take-le : (n : ℕ) (s : Str) → length (take n s) ≤ n
length-take-le zero s = omega arith
length-take-le (suc n) [] = omega arith
length-take-le (suc n) (x ∷ s) = omega (arith, length-take-le n s)

cut-IsRest :
    (size : ℕ) (remaining : Rest)
    → IsRest size remaining
    → is_empty remaining.text ≡ false
    → (remaining.offset + length (cut remaining (Str.find b'/' remaining.text)).0 ≤ size)
      × IsRest size (cut remaining (Str.find b'/' remaining.text)).1
unfolding cut
cut-IsRest size remaining h full = elim (Option-cases (Str.find b'/' remaining.text)) [
  | inl missing ↦ rw missing (omega (arith, is_empty-pos remaining.text full), inl refl)
  | inr (pos, found) ↦
      let low = find-lt b'/' remaining.text pos found in
      let size_rest = length-drop (pos + 1) remaining.text in
      rw found (
        omega (arith, length-take-le pos remaining.text, is_empty-pos remaining.text full),
        inr (omega (arith, is_empty-pos remaining.text full)),
      )
]

-- What one segment adds to the captures.
count_of : SrcSeg → ℕ
count_of (SrcSeg.lit l) = 0
count_of SrcSeg.param = 1

match_seg-AreCaptures :
    (src_seg : SrcSeg) (seg : Str) (offset size n : ℕ) (caps caps' : List Range)
    → offset + length seg ≤ size
    → AreCaptures size n caps
    → match_seg src_seg seg offset caps ≡ some caps'
    → AreCaptures size (n + count_of src_seg) caps'
unfolding match_seg count_of
match_seg-AreCaptures (SrcSeg.lit l) seg offset size n caps caps' low h e =
    let same : caps ≡ caps' = ground arith in
    record { number = rw (← same) (omega (arith, h.number)); within = rw (← same) h.within }
match_seg-AreCaptures SrcSeg.param seg offset size n caps caps' low h e =
    let own : Range = record { start = offset; end = offset + length seg } in
    let same : caps ++ own ∷ [] ≡ caps' = cc in
    record {
      number = rw (← same) (omega (arith, length-append caps (own ∷ []), h.number));
      within = rw (← same) (
          All-append (IsWithin size) caps (own ∷ []) h.within
            (record { ordered = omega arith; bounded = low }, tt));
    }

abbrev head_text : Rest → Str
head_text remaining = (cut remaining (Str.find b'/' remaining.text)).0

abbrev behind : Rest → Rest
behind remaining = (cut remaining (Str.find b'/' remaining.text)).1

capture_from-step :
    (src_seg : SrcSeg) (src : List SrcSeg) (remaining : Rest) (caps caps' : List Range)
    → is_empty remaining.text ≡ false
    → match_seg src_seg (head_text remaining) remaining.offset caps ≡ some caps'
    → capture_from (src_seg ∷ src) remaining caps ≡ capture_from src (behind remaining) caps'
unfolding capture_from
capture_from-step src_seg src remaining caps caps' full fits = rw (full, capture_from) (rw fits)

capture_from-stop :
    (src_seg : SrcSeg) (src : List SrcSeg) (remaining : Rest) (caps : List Range)
    → is_empty remaining.text ≡ false
    → match_seg src_seg (head_text remaining) remaining.offset caps ≡ none
    → capture_from (src_seg ∷ src) remaining caps ≡ none
unfolding capture_from
capture_from-stop src_seg src remaining caps full fits = rw (full, capture_from) (rw fits)

capture_from-none :
    (src_seg : SrcSeg) (src : List SrcSeg) (remaining : Rest) (caps : List Range)
    → is_empty remaining.text ≡ true
    → capture_from (src_seg ∷ src) remaining caps ≡ none
unfolding capture_from
capture_from-none src_seg src remaining caps no_text = rw (no_text, capture_from)

param_count-cons :
    (src_seg : SrcSeg) (src : List SrcSeg)
    → param_count (src_seg ∷ src) ≡ count_of src_seg + param_count src
unfolding count_of
param_count-cons (SrcSeg.lit l) src = omega arith
param_count-cons SrcSeg.param src = omega arith

capture_from-AreCaptures :
    (src : List SrcSeg) (remaining : Rest) (size n : ℕ) (caps caps' : List Range)
    → IsRest size remaining
    → AreCaptures size n caps
    → capture_from src remaining caps ≡ some caps'
    → AreCaptures size (n + param_count src) caps'
capture_from-AreCaptures [] remaining size n caps caps' rest h e =
    let same : caps ≡ caps' = unfold capture_from in ground arith in
    record { number = rw (← same) (omega (arith, h.number)); within = rw (← same) h.within }
capture_from-AreCaptures (src_seg ∷ src) remaining size n caps caps' rest h e =
    elim (Bool-cases (is_empty remaining.text)) [
      | inl no_text ↦ cc (capture_from-none src_seg src remaining caps no_text)
      | inr full ↦
          let (low, rest') = cut-IsRest size remaining rest full in
          elim (Option-cases (match_seg src_seg (head_text remaining) remaining.offset caps)) [
            | inl misses ↦ cc (capture_from-stop src_seg src remaining caps full misses)
            | inr (caps1, fits) ↦
                let h1 =
                  match_seg-AreCaptures src_seg (head_text remaining) remaining.offset size n caps
                    caps1 low h fits in
                let total : n + param_count (src_seg ∷ src)
                    ≡ n + count_of src_seg + param_count src =
                  omega (arith, param_count-cons src_seg src) in
                rw total (
                  capture_from-AreCaptures src (behind remaining) size (n + count_of src_seg) caps1
                    caps' rest' h1
                    (sym (capture_from-step src_seg src remaining caps caps1 full fits) ∙ e))
          ]
    ]

capture_raw-AreCaptures :
    (src : List SrcSeg) (path : Str) (caps : List Range)
    → capture_raw src path ≡ some caps
    → AreCaptures (length path) (param_count src) caps
unfolding capture_raw
capture_raw-AreCaptures src path caps e = elim (Option-cases (Str.strip_prefix path (b'/' ∷ []))) [
  | inl missing ↦ let no : capture_content src none ≡ some caps = rw missing at e in cc
  | inr (content, found) ↦
      let whole = strip_prefix-eq-some path (b'/' ∷ []) content found in
      let size : 1 + length content ≡ length path = rw whole (omega arith) in
      let e' : capture_content src (some content) ≡ some caps = rw found at e in
      let h : AreCaptures (length path) 0 [] = record { number = refl; within = tt } in
      let counted : 0 + param_count src ≡ param_count src = omega arith in
      rw (← counted) (
        capture_from-AreCaptures src (record { text = content; offset = 1 }) (length path) 0 [] caps
          (inr size) h e')
]

chunk_text-done :
    (caps : List Range) (path : Str) (n : ℕ) (chunk : DstChunk)
    → AreCaptures (length path) n caps
    → IsCapture n chunk
    → (s : Str) × (chunk_text caps path chunk ≡ done s)
unfolding chunk_text
chunk_text-done caps path n (DstChunk.lit s) h inside = (s, refl)
chunk_text-done caps path n (DstChunk.capture k) h inside =
    let (r, there) = get_elem?-lt caps k (omega (arith, h.number)) in
    let w = All-get_elem? (IsWithin (length path)) caps k h.within there in
    let (s, cut_out) = slice-some path r.start r.end w.ordered w.bounded in
    (s, unfold captured in rw there (rw cut_out))

render_chunks-done :
    (dst : List DstChunk) (caps : List Range) (path out : Str) (n : ℕ)
    → AreCaptures (length path) n caps
    → All (IsCapture n) dst
    → (s : Str) × (render_chunks dst caps path out ≡ done s)
unfolding render_chunks
render_chunks-done [] caps path out n h inside = (out, refl)
render_chunks-done (chunk ∷ dst) caps path out n h inside =
    let (w, text) = chunk_text-done caps path n chunk h inside.0 in
    let (s, later) = render_chunks-done dst caps path (out ++ w) n h inside.1 in
    (s, rw (text, render_chunks) later)

-- A well-formed template renders on every path and query: it gives a text, or none where the path
-- does not match, and it never indexes or slices out of range.
pub render_template-total :
    (tpl : RewriteTemplate) (path : Str) (query : Option Str)
    → IsTemplate tpl
    → (o : Option Str) × (render_template tpl path query ≡ done o)
unfolding render_template
render_template-total tpl path query h = elim (Option-cases (capture_raw tpl.src path)) [
  | inl misses ↦ (none, rw (misses, render_template))
  | inr (caps, fits) ↦
      let (s, text) =
        render_chunks-done tpl.dst caps path [] (param_count tpl.src)
          (capture_raw-AreCaptures tpl.src path caps fits) h.captures in
      (some (push_query s query), rw (fits, render_template) (rw text))
]
