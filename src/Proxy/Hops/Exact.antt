-- ===== src/Proxy/Hops/Exact.antt =====
-- Which headers are stripped, by the names of RFC 7230, section 6.1, and by what `Connection` lists.
use apigate.Prelude.{
  ◌≡◌, refl, sym, ◌∙◌, ap, ◌≢◌, List, [], ◌∷◌, Bool, ◌||◌, true, false, none, some, ◌⊎◌, inl, inr,
  map, In, In-append, In-append_left, In-append_right, Bool-cases, Option-cases, arith,
}
use mathlib.Core.Path.{subst}
use apigate.Str
use apigate.Str.{Str, codes}
use apigate.Str.Laws.{eq_iff}
use apigate.Http.{Http}
use apigate.Proxy.Hops.{
  connection, standard_hops, names_of, value_tokens, connection_tokens, strip_hop_headers, is_hop,
  get_all-strip_hop_headers,
}

-- Hop-by-hop whatever `Connection` lists; the last is the name that older clients use.
abbrev rfc_names : List Str
rfc_names =
    codes "connection"
    ∷ codes "proxy-authenticate"
    ∷ codes "proxy-authorization"
    ∷ codes "te"
    ∷ codes "trailer"
    ∷ codes "transfer-encoding"
    ∷ codes "upgrade"
    ∷ codes "keep-alive"
    ∷ codes "proxy-connection"
    ∷ []

any_of_three : (a b c : Bool) → (a || (b || c)) ≡ true → (a ≡ true) ⊎ ((b ≡ true) ⊎ (c ≡ true))
any_of_three true b c h = inl refl
any_of_three false true c h = inr (inl refl)
any_of_three false false c h = inr (inr h)

second : (a b c : Bool) → b ≡ true → (a || (b || c)) ≡ true
second a b c h = ground arith

third : (a b c : Bool) → c ≡ true → (a || (b || c)) ≡ true
third a b c h = ground arith

mem-In : (m : Str) (names : List Str) → Str.mem m names ≡ true → In m names
unfolding Str.mem
mem-In m [] h = cc
mem-In m (n ∷ names) h = elim (Bool-cases (Str.eq n m)) [
  | inl same ↦ inl (sym ((eq_iff n m).0 same))
  | inr other ↦ inr (mem-In m names (rw other at h))
]

In-mem : (m : Str) (names : List Str) → In m names → Str.mem m names ≡ true
unfolding Str.mem
In-mem m [] h = absurd h
In-mem m (n ∷ names) (inl e) = rw ((eq_iff n m).1 (sym e))
In-mem m (n ∷ names) (inr h) = elim (Bool-cases (Str.eq n m)) [
  | inl same ↦ rw same
  | inr other ↦ rw other (In-mem m names h)
]

In-non_empty : (t : Str) (ts : List Str) → In t (Str.non_empty ts) → In t ts × (t ≢ [])
unfolding Str.non_empty
In-non_empty t [] h = absurd h
In-non_empty t ([] ∷ ts) h = let (i, n) = In-non_empty t ts h in (inr i, n)
In-non_empty t ((c ∷ s) ∷ ts) (inl e) = (inl e, λ z. cc)
In-non_empty t ((c ∷ s) ∷ ts) (inr h) = let (i, n) = In-non_empty t ts h in (inr i, n)

non_empty-In : (t : Str) (ts : List Str) → In t ts → t ≢ [] → In t (Str.non_empty ts)
unfolding Str.non_empty
non_empty-In t [] h n = absurd h
non_empty-In t ([] ∷ ts) (inl e) n = absurd (n e)
non_empty-In t ([] ∷ ts) (inr h) n = non_empty-In t ts h n
non_empty-In t ((c ∷ s) ∷ ts) (inl e) n = inl e
non_empty-In t ((c ∷ s) ∷ ts) (inr h) n = inr (non_empty-In t ts h n)

module _ (http : Http) where
  -- A token of a value that names the header.
  abbrev pub Names : Str → http.HeaderValue → Type 0
  Names m value =
      (text : Str) × (http.to_str value ≡ some text)
      × (token : Str) × In token (map Str.trim (Str.split b',' text))
      × (token ≢ [])
      × (http.header_name token ≡ some m)

  -- A hop-by-hop header: a name of the RFC, or one that a value of `Connection` lists.
  abbrev pub IsHop : http.Headers → Str → Type 0
  IsHop headers m =
      In m rfc_names
      ⊎ ((value : http.HeaderValue) × In value (http.get_all headers (codes "connection"))
          × Names m value)

  names_of-skip :
      (t : Str) (tokens : List Str)
      → http.header_name t ≡ none
      → names_of http (t ∷ tokens) ≡ names_of http tokens
  unfolding names_of
  names_of-skip t tokens bad = rw (bad, names_of) refl

  names_of-take :
      (t name : Str) (tokens : List Str)
      → http.header_name t ≡ some name
      → names_of http (t ∷ tokens) ≡ name ∷ names_of http tokens
  unfolding names_of
  names_of-take t name tokens good = rw (good, names_of) refl

  names_of-In :
      (m : Str) (tokens : List Str)
      → In m (names_of http tokens)
      → (token : Str) × In token tokens × (http.header_name token ≡ some m)
  unfolding names_of
  names_of-In m [] h = absurd h
  names_of-In m (t ∷ tokens) h = elim (Option-cases (http.header_name t)) [
    | inl bad ↦
        let (token, i, e) = names_of-In m tokens (subst (In m) (names_of-skip t tokens bad) h) in
        (token, inr i, e)
    | inr (name, good) ↦ elim (subst (In m) (names_of-take t name tokens good) h) [
      | inl same ↦ (t, inl refl, good ∙ ap some (sym same))
      | inr later ↦ let (token, i, e) = names_of-In m tokens later in (token, inr i, e)
    ]
  ]

  In-names_of :
      (m : Str) (tokens : List Str) (token : Str)
      → In token tokens
      → http.header_name token ≡ some m
      → In m (names_of http tokens)
  unfolding names_of
  In-names_of m [] token h e = absurd h
  In-names_of m (t ∷ tokens) token (inl same) e =
      let here : http.header_name t ≡ some m = ap http.header_name (sym same) ∙ e in
      subst (In m) (sym (names_of-take t m tokens here)) (inl refl)
  In-names_of m (t ∷ tokens) token (inr h) e = elim (Option-cases (http.header_name t)) [
    | inl bad ↦ subst (In m) (sym (names_of-skip t tokens bad)) (In-names_of m tokens token h e)
    | inr (name, good) ↦
        subst (In m) (sym (names_of-take t name tokens good)) (inr (In-names_of m tokens token h e))
  ]

  value_tokens-Names :
      (m : Str) (value : http.HeaderValue)
      → In m (value_tokens http (http.to_str value))
      → Names m value
  unfolding value_tokens
  value_tokens-Names m value h = elim (Option-cases (http.to_str value)) [
    | inl bad ↦ absurd (subst (λ o. In m (value_tokens http o)) bad h)
    | inr (text, good) ↦
        let (token, i, e) = names_of-In m _ (subst (λ o. In m (value_tokens http o)) good h) in
        let (i', n) = In-non_empty token _ i in (text, good, token, i', n, e)
  ]

  Names-value_tokens :
      (m : Str) (value : http.HeaderValue)
      → Names m value
      → In m (value_tokens http (http.to_str value))
  unfolding value_tokens
  Names-value_tokens m value (text, good, token, i, n, e) =
      rw good (In-names_of m _ token (non_empty-In token _ i n) e)

  connection_tokens-In :
      (m : Str) (values : List http.HeaderValue)
      → In m (connection_tokens http values)
      → (value : http.HeaderValue) × In value values × Names m value
  unfolding connection_tokens
  connection_tokens-In m [] h = absurd h
  connection_tokens-In m (v ∷ values) h =
      elim (In-append m (value_tokens http (http.to_str v)) _ h) [
        | inl here ↦ (v, inl refl, value_tokens-Names m v here)
        | inr later ↦
            let (value, i, named) = connection_tokens-In m values later in (value, inr i, named)
      ]

  In-connection_tokens :
      (m : Str) (values : List http.HeaderValue) (value : http.HeaderValue)
      → In value values
      → Names m value
      → In m (connection_tokens http values)
  unfolding connection_tokens
  In-connection_tokens m [] value h named = absurd h
  In-connection_tokens m (v ∷ values) value (inl same) named =
      In-append_left m (value_tokens http (http.to_str v)) _
        (Names-value_tokens m v (subst (Names m) same named))
  In-connection_tokens m (v ∷ values) value (inr h) named =
      In-append_right m (value_tokens http (http.to_str v)) _
        (In-connection_tokens m values value h named)

  is_hop-IsHop : (headers : http.Headers) (m : Str) → is_hop http headers m ≡ true → IsHop headers m
  is_hop-IsHop headers m h =
      elim (any_of_three (Str.eq connection m) (Str.mem m (connection_tokens http _)) _ h) [
        | inl first ↦ inl (inl (sym ((eq_iff connection m).0 first)))
        | inr (inl listed) ↦ inr (connection_tokens-In m _ (mem-In m _ listed))
        | inr (inr standard) ↦ inl (inr (mem-In m standard_hops standard))
      ]

  IsHop-is_hop : (headers : http.Headers) (m : Str) → IsHop headers m → is_hop http headers m ≡ true
  IsHop-is_hop headers m (inl (inl same)) = rw ((eq_iff connection m).1 (sym same))
  IsHop-is_hop headers m (inl (inr standard)) =
      third (Str.eq connection m) _ _ (In-mem m standard_hops standard)
  IsHop-is_hop headers m (inr (value, i, named)) =
      second (Str.eq connection m) _ _ (In-mem m _ (In-connection_tokens m _ value i named))

  -- What stripping leaves of a header.
  abbrev pub Stripped : http.Headers → http.Headers → Str → Type 0
  Stripped headers left m =
      (IsHop headers m × (http.get_all left m ≡ []))
      ⊎ ((¬ IsHop headers m) × (http.get_all left m ≡ http.get_all headers m))

  -- Stripping removes every value of exactly the hop-by-hop headers, those that RFC 7230 names and
  -- those that a value of `Connection` lists between its commas, and keeps the values of every
  -- other header.
  pub strip_hop_headers-Stripped :
      (headers : http.Headers) (m : Str) → Stripped headers (strip_hop_headers http headers) m
  strip_hop_headers-Stripped headers m =
      let left = get_all-strip_hop_headers http headers m in
      elim (Bool-cases (is_hop http headers m)) [
        | inl hop ↦ inl (is_hop-IsHop headers m hop, left ∙ rw hop)
        | inr plain ↦ inr ((λ hop. let same = IsHop-is_hop headers m hop in cc), left ∙ rw plain)
      ]
