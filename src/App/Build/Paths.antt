-- ===== src/App/Build/Paths.antt =====
-- Joining a service prefix with a route path, and stripping the prefix again.
use apigate.Prelude.{
  ℕ, zero, suc, ◌≡◌, refl, ◌∙◌, [], ◌∷◌, ◌++◌, true, false, append-nil, replicate, if◌then◌else◌,
  Bool-cases, inl, inr, ==_refl,
}
use apigate.Str
use apigate.Str.{Str}
use apigate.App.Build.{join}
use apigate.Proxy.Paths.{strip_prefix}
use apigate.Proxy.Paths.Prefix.{strip_prefix-append_rest}

trim_replicate : (c k : ℕ) → Str.trim_end_matches c (replicate k c) ≡ []
unfolding Str.trim_end_matches
trim_replicate c zero = refl
trim_replicate c (suc k) = rw (trim_replicate c k, ==_refl c) refl

trim-append :
    (c k : ℕ) (p : Str)
    → Str.ends_with p c ≡ false
    → Str.trim_end_matches c (p ++ replicate k c) ≡ p
unfolding Str.trim_end_matches Str.ends_with
trim-append c k [] h = trim_replicate c k
trim-append c k (x ∷ []) h = rw (trim_replicate c k, h) refl
trim-append c k (x ∷ y ∷ p) h = rw (trim-append c k (y ∷ p) h) refl

ends_with-replicate : (c k : ℕ) → Str.ends_with (replicate (suc k) c) c ≡ true
unfolding Str.ends_with
ends_with-replicate c zero = ==_refl c
ends_with-replicate c (suc k) = ends_with-replicate c k

ends_with-append : (c k : ℕ) (p : Str) → Str.ends_with (p ++ replicate (suc k) c) c ≡ true
unfolding Str.ends_with
ends_with-append c k [] = ends_with-replicate c k
ends_with-append c k (x ∷ []) = ends_with-replicate c k
ends_with-append c k (x ∷ y ∷ p) = ends_with-append c k (y ∷ p)

-- Trailing slashes of the prefix do not change the path at which a route is mounted.
pub join_slashes :
    (prefix path : Str) (k : ℕ)
    → Str.ends_with prefix b'/' ≡ false
    → join (prefix ++ replicate k b'/') path ≡ join prefix path
unfolding join
join_slashes prefix path zero h = rw append-nil refl
join_slashes prefix path (suc k) h =
    rw (ends_with-append b'/' k prefix, trim-append b'/' (suc k) prefix h, h) refl

-- With a prefix that does not end in a slash, stripping it from the path at which a route is
-- mounted gives back the route's path, behind a slash.
pub strip_prefix-join :
    (prefix path : Str)
    → Str.ends_with prefix b'/' ≡ false
    → strip_prefix (join prefix path) prefix
      ≡ (if Str.starts_with path b'/' then path else b'/' ∷ path)
unfolding join
strip_prefix-join prefix path h = elim (Bool-cases (Str.starts_with path b'/')) [
  | inl slash ↦ rw (h, slash) (strip_prefix-append_rest prefix path ∙ rw slash refl)
  | inr bare ↦
      rw (h, bare) (strip_prefix-append_rest prefix (b'/' ∷ path) ∙ unfold Str.starts_with in refl)
]
