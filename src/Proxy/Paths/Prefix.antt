-- ===== src/Proxy/Paths/Prefix.antt =====
-- Stripping the service prefix.
use apigate.Prelude.{
  ◌≡◌, refl, ◌∙◌, [], ◌∷◌, ◌++◌, true, false, Option, none, some, Bool-cases, inl, inr, ◌==◌,
  if◌then◌else◌,
}
use apigate.Str
use apigate.Str.{Str}
use apigate.Str.Laws.{strip_prefix-append}
use apigate.Proxy.Paths.{after_prefix, strip_prefix}

-- What stripping leaves of the prefix and a rest, by the first byte of the rest: the rest if it
-- starts with a slash, and the root otherwise.
pub strip_prefix-append_rest :
    (prefix rest : Str)
    → strip_prefix (prefix ++ rest) prefix ≡ (if Str.starts_with rest b'/' then rest else b'/' ∷ [])
unfolding strip_prefix
strip_prefix-append_rest prefix [] = rw (strip_prefix-append prefix [])
strip_prefix-append_rest prefix (x ∷ rest) = rw (strip_prefix-append prefix (x ∷ rest))

after_prefix-starts_with :
    (path : Str) (o : Option Str)
    → Str.starts_with path b'/' ≡ true
    → Str.starts_with (after_prefix path o) b'/' ≡ true
unfolding after_prefix
after_prefix-starts_with path none h = h
after_prefix-starts_with path (some []) h = refl
after_prefix-starts_with path (some (x ∷ rest)) h = elim (Bool-cases (x == b'/')) [
  | inl slash ↦ rw slash slash
  | inr other ↦ rw other
]

-- A path that starts with a slash still does so when a prefix is stripped from it, whether it
-- starts with the prefix or not.
pub strip_prefix-starts_with :
    (path prefix : Str)
    → Str.starts_with path b'/' ≡ true
    → Str.starts_with (strip_prefix path prefix) b'/' ≡ true
unfolding strip_prefix
strip_prefix-starts_with path prefix h =
    after_prefix-starts_with path (Str.strip_prefix path prefix) h

-- With a prefix that ends in a slash the path is lost: every path under it that has no second slash
-- there is stripped to the root.
pub strip_prefix_slash :
    (prefix rest : Str)
    → Str.starts_with rest b'/' ≡ false
    → strip_prefix ((prefix ++ b'/' ∷ []) ++ rest) (prefix ++ b'/' ∷ []) ≡ b'/' ∷ []
strip_prefix_slash prefix rest h = strip_prefix-append_rest (prefix ++ b'/' ∷ []) rest ∙ rw h
