-- ===== src/Macros/Codegen/Phases/Outcomes.antt =====
-- What a generated pipeline does with the body, and when it stops.
use apigate.Prelude.{
  ◌≡◌, refl, ◌∙◌, ap, List, [], ◌∷◌, ◌++◌, Bool, false, Option, none, some, ok, err, if◌then◌else◌,
}
use apigate.Str
use apigate.Str.{Str}
use apigate.Http.{Http}
use apigate.Error.{ApigateError}
use apigate.Pipeline.{TypeMap, raw_body_cloned}
use apigate.Pipeline.Scope.{read_body_bytes-ok}
use apigate.Facade.{Serde, Format, unit, replace, Out, parse_json, parse_form}
use apigate.Macros.Args.{DataKind}
use apigate.Macros.Codegen.{
  Env, Input, parsed, raw_input, State, M, path_phase, query_phase, hook_phase,
}
use apigate.Macros.Codegen.Phases.{
  content_type_name, content_length_name, generated, call_map, replace_or_keep, map_replace_or_keep,
  set_content_type, payload_body, none_map_phase, multipart_guard, json_phase, form_post_branch,
}

module _ (http : Http) (map : TypeMap) (serde : Serde) {Body Custom : Type 0}
    (env : Env http map serde Body Custom) where
  abbrev Pipe_ : Type 0
  Pipe_ = State http map serde env

  -- Hooks that succeed one after the other.
  pub data Ran : List env.ItemPath → Pipe_ → Pipe_ → Type 0 where
    none_left : (s : Pipe_) → Ran [] s s
    one_more :
        (h : env.ItemPath) (hooks : List env.ItemPath) {s t u : Pipe_}
        → env.hook h s ≡ (t, ok tt)
        → Ran hooks t u
        → Ran (h ∷ hooks) s u

  hook_phase-stops :
      (hooks rest : List env.ItemPath) (h : env.ItemPath) (s t u : Pipe_) (e : ApigateError Custom)
      → Ran hooks s t
      → env.hook h t ≡ (u, err e)
      → hook_phase http map serde env (hooks ++ h ∷ rest) s ≡ (u, err e)
  unfolding hook_phase
  hook_phase-stops [] rest h s t u e (none_left _) fails = simp fails
  hook_phase-stops (x ∷ hooks) rest h s t u e (one_more _ _ first later) fails =
      simp (first, hook_phase-stops hooks rest h _ t u e later fails)

  -- If the parameters are extracted and the hooks before one succeed, in order, and that one fails, then
  -- the pipeline ends with its error and with what it left: no later hook runs, and the body phase
  -- does not.
  pub generated-hook_fails :
      (hooks rest : List env.ItemPath) (h : env.ItemPath) (content : DataKind serde.Ty)
      (map_fn : Option env.ItemPath) (path_type query_type : Option serde.Ty) (body_in_query : Bool)
      (s t u v w : Pipe_) (e : ApigateError Custom)
      → path_phase http map serde env path_type s ≡ (t, ok tt)
      → query_phase http map serde env query_type t ≡ (u, ok tt)
      → Ran hooks u v
      → env.hook h v ≡ (w, err e)
      → generated http map serde env
          (hooks ++ h ∷ rest)
          content
          map_fn
          path_type
          query_type
          body_in_query
          s
        ≡ (w, err e)
  unfolding generated
  generated-hook_fails hooks rest h content map_fn path_type query_type q s t u v w e path query ran
        fails =
      simp (path, query, hook_phase-stops hooks rest h u v w e ran fails)

  -- A map that returns `()` forwards the bytes that were read, in every format, and changes the request
  -- only as the map itself did.
  pub map_replace_or_keep-unit :
      (f : Format) (map_fn : env.ItemPath) (input : Input serde) (content_type : Option Str)
      (bytes : Str) (s t : Pipe_)
      → env.user_map f map_fn input s ≡ (t, ok unit)
      → map_replace_or_keep http map serde env f map_fn input content_type bytes s
        ≡ (t, ok (env.body_of bytes))
  unfolding map_replace_or_keep call_map replace_or_keep
  map_replace_or_keep-unit Format.json map_fn input content_type bytes s t h = simp h
  map_replace_or_keep-unit Format.form map_fn input content_type bytes s t h = simp h
  map_replace_or_keep-unit Format.raw map_fn input content_type bytes s t h = simp h

  -- The values of a header after a replaced body.
  abbrev pub replaced_header : Option Str → Str → List http.HeaderValue → List http.HeaderValue
  replaced_header none name values = if Str.eq (Str.codes "content-length") name then [] else values
  replaced_header (some content_type) name values =
      if Str.eq (Str.codes "content-length") name
      then []
      else if Str.eq (Str.codes "content-type") name
      then env.from_static content_type ∷ []
      else values

  headers-lem :
      (content_type : Option Str) (h : http.Headers) (name : Str)
      → http.get_all
          (http.remove (set_content_type http map serde env content_type h) content_length_name)
          name
        ≡ replaced_header content_type name (http.get_all h name)
  unfolding set_content_type
  headers-lem none h name = http.get_all-remove h content_length_name name
  headers-lem (some content_type) h name =
      http.get_all-remove (http.insert h content_type_name (env.from_static content_type))
        content_length_name name
      ∙ ap (λ v. if Str.eq content_length_name name then [] else v)
          (http.get_all-insert h content_type_name name (env.from_static content_type))

  -- The body and the headers once a map has replaced the body, with a content type or without one.
  map_replace_or_keep-replace :
      (f : Format) (map_fn : env.ItemPath) (input : Input serde) (content_type : Option Str)
      (bytes : Str) (s t : Pipe_) (payload : Out serde Body env.IntoBody env.into f)
      → call_map http map serde env f map_fn input s ≡ (t, ok (replace payload))
      → ((map_replace_or_keep http map serde env f map_fn input content_type bytes s).1
          ≡ ok (payload_body http map serde env f payload))
        × ((name : Str)
            → http.get_all
                (map_replace_or_keep http map serde env f map_fn input content_type bytes
                  s).0.ctx.parts.headers
                name
              ≡ replaced_header content_type name (http.get_all t.ctx.parts.headers name))
  unfolding map_replace_or_keep replace_or_keep
  map_replace_or_keep-replace f map_fn input content_type bytes s t payload h =
      let e : map_replace_or_keep http map serde env f map_fn input content_type bytes s
          ≡ replace_or_keep http map serde env f content_type bytes (replace payload) t =
        simp h in
      (
        ap (λ p. p.1) e,
        λ name.
            ap (λ p. http.get_all p.0.ctx.parts.headers name) e
            ∙ headers-lem content_type t.ctx.parts.headers name,
      )

  -- The content type of a format; raw bytes have none.
  abbrev pub content_type_of : Format → Option Str
  content_type_of Format.json = some (Str.codes "application/json")
  content_type_of Format.form = some (Str.codes "application/x-www-form-urlencoded")
  content_type_of Format.raw = none

  -- The text or the body that a map replaces the body by, as a body.
  abbrev pub as_body : (f : Format) → Out serde Body env.IntoBody env.into f → Body
  as_body Format.json text = env.body_of text
  as_body Format.form text = env.body_of text
  as_body Format.raw body = body

  -- The body phase of a route with a map, in a format.
  abbrev pub map_phase : Format → serde.Ty → env.ItemPath → M http map serde env Body
  map_phase Format.json ty map_fn = json_phase http map serde env ty (some map_fn)
  map_phase Format.form ty map_fn = form_post_branch http map serde env ty (some map_fn)
  map_phase Format.raw ty map_fn = none_map_phase http map serde env map_fn false

  -- What the map is given of the text of the body.
  abbrev pub IsInput : Format → serde.Ty → Str → Input serde → Type 0
  IsInput Format.json ty text input =
      (v : serde.Value) × (parse_json serde ty text ≡ ok v) × (input ≡ parsed v)
  IsInput Format.form ty text input =
      (v : serde.Value) × (parse_form serde ty text ≡ ok v) × (input ≡ parsed v)
  IsInput Format.raw ty text input = input ≡ raw_input (record { bytes = text })

  -- The body was read and its text is kept.
  abbrev pub with_text : Pipe_ → Str → Pipe_
  with_text s text = record {
    ctx = s.ctx;
    scope = record s.scope { body = none; raw_body = some text };
  }

  -- The map gets what was read from the body, and its format sets the content type.
  pub map_phase-read :
      (f : Format) (ty : serde.Ty) (map_fn : env.ItemPath) (s : Pipe_) (body : Body) (text : Str)
      (input : Input serde)
      → s.scope.body ≡ some body
      → env.to_bytes body s.scope.body_limit ≡ ok text
      → IsInput f ty text input
      → map_phase f ty map_fn s
        ≡ map_replace_or_keep http map serde env f map_fn input
            (content_type_of f)
            text
            (with_text s text)
  unfolding none_map_phase multipart_guard raw_body_cloned json_phase form_post_branch
  map_phase-read Format.json ty map_fn s body text input there fits (v, parses, same) =
      simp (read_body_bytes-ok env.to_bytes s.scope body text there fits, parses, same)
  map_phase-read Format.form ty map_fn s body text input there fits (v, parses, same) =
      simp (read_body_bytes-ok env.to_bytes s.scope body text there fits, parses, same)
  map_phase-read Format.raw ty map_fn s body text input there fits same =
      simp (read_body_bytes-ok env.to_bytes s.scope body text there fits, same)

  as_body-payload_body :
      (f : Format) (payload : Out serde Body env.IntoBody env.into f)
      → payload_body http map serde env f payload ≡ as_body f payload
  as_body-payload_body Format.json payload = refl
  as_body-payload_body Format.form payload = refl
  as_body-payload_body Format.raw payload = refl

  -- If the body is read within the limit and parses as the input of the map, and the map replaces
  -- it, then the body phase of its format gives the replacement, and forwards it with no
  -- `Content-Length`, with `Content-Type` set to the one of the format, JSON or an encoded form,
  -- where raw bytes leave it, and with all other headers as the map left them.
  pub map_phase-replace :
      (f : Format) (ty : serde.Ty) (map_fn : env.ItemPath) (s t : Pipe_) (body : Body) (text : Str)
      (input : Input serde) (payload : Out serde Body env.IntoBody env.into f)
      → s.scope.body ≡ some body
      → env.to_bytes body s.scope.body_limit ≡ ok text
      → IsInput f ty text input
      → call_map http map serde env f map_fn input (with_text s text) ≡ (t, ok (replace payload))
      → ((map_phase f ty map_fn s).1 ≡ ok (as_body f payload))
        × ((name : Str)
            → http.get_all (map_phase f ty map_fn s).0.ctx.parts.headers name
              ≡ replaced_header (content_type_of f) name (http.get_all t.ctx.parts.headers name))
  map_phase-replace f ty map_fn s t body text input payload there fits is h =
      let read = map_phase-read f ty map_fn s body text input there fits is in
      let (made, headers) =
        map_replace_or_keep-replace f map_fn input (content_type_of f) text (with_text s text) t
          payload h in
      (
        ap (λ p. p.1) read ∙ made ∙ ap ok (as_body-payload_body f payload),
        λ name. ap (λ p. http.get_all p.0.ctx.parts.headers name) read ∙ headers name,
      )
