-- ===== src/PartsCtx/Headers.antt =====
-- Setting headers.
use apigate.Prelude.{◌≡◌, refl, [], ◌∷◌, some, Bool-cases, inl, inr, is_empty, if◌then◌else◌}
use apigate.Str
use apigate.Str.{Str}
use apigate.Http.{Http}
use apigate.Pipeline.{PartsCtx}
use apigate.PartsCtx.{set_header, set_header_if_absent}

module _ (http : Http) where
  -- Setting a header with a valid name and value leaves that value alone under the name; setting
  -- it if absent does so only where the name has no value, and changes nothing otherwise. Neither
  -- changes another header.
  pub get_all-set_header :
      (ctx : PartsCtx http) (name m : Str) (value : http.HeaderValue)
      → (http.get_all (set_header http ctx (some name) (some value)).0.parts.headers m
          ≡ (if Str.eq name m then value ∷ [] else http.get_all ctx.parts.headers m))
        × (http.get_all (set_header_if_absent http ctx (some name) (some value)).0.parts.headers m
            ≡ (if is_empty (http.get_all ctx.parts.headers name)
                then (if Str.eq name m then value ∷ [] else http.get_all ctx.parts.headers m)
                else http.get_all ctx.parts.headers m))
  unfolding set_header set_header_if_absent
  get_all-set_header ctx name m value = (
    http.get_all-insert ctx.parts.headers name m value,
    elim (Bool-cases (is_empty (http.get_all ctx.parts.headers name))) [
      | inl absent ↦ rw absent (http.get_all-insert ctx.parts.headers name m value)
      | inr present ↦ rw present refl
    ],
  )
