-- ===== src/Facade.antt =====
-- apigate/src/lib.rs: what the generated code calls to parse bodies and to finish the output of a
-- map. The crates of serde are a parameter. The output of a map is either `()` or of a type that the
-- format takes, which is what the compiler chooses between.
use apigate.Prelude.{String, Option, none, some, Result, ok, err, map_err, ◌>>=◌}
use apigate.Str.{Str}
use apigate.Error.{PipelineError}

-- `serde_json`, `serde_urlencoded`, `serde_html_form`, with the text of an error. The functions
-- `track_…` deserialize through `serde_path_to_error`.
pub record Serde : Type 1 where
  -- the types that a route names, and their values
  pub Ty : Type 0
  pub Value : Type 0
  pub json : Ty → Str → Result String Value
  pub track_json : Ty → Str → Result String Value
  pub form : Ty → Str → Result String Value
  pub track_form : Ty → Str → Result String Value
  pub query : Ty → Str → Result String Value
  pub track_query : Ty → Str → Result String Value
  pub json_to_string : Value → Result String Str
  pub form_to_string : Value → Result String Str
  pub query_to_string : Value → Result String Str

-- The details of an error: those of the tracking deserializer, if it fails as well.
unfoldable pub details {ℓ} : {V : Type ℓ} → String → Result String V → String
details e (err tracked) = tracked
details e (ok v) = e

unfoldable pub parse_with {ℓ} :
    {V : Type ℓ}
    → (String → PipelineError)
    → Result String V
    → Result String V
    → Result PipelineError V
unfolding details
parse_with wrap first tracked = map_err (λ e. wrap (details e tracked)) first

-- Whether a map keeps the body or replaces it.
pub data BodyOutcome (T : Type 0) : Type 0 where
  keep : BodyOutcome T
  replace : T → BodyOutcome T

unfoldable pub outcome_of : {T : Type 0} → Option T → BodyOutcome T
outcome_of none = keep
outcome_of (some payload) = replace payload

pub data Format : Type 0 where
  json form raw : Format

-- The output of a map: `()`, or a value.
pub data Output (A : Type 0) : Type 0 where
  unit : Output A
  value : A → Output A

module _ (serde : Serde) where
  unfoldable pub parse_json : serde.Ty → Str → Result PipelineError serde.Value
  unfolding parse_with
  parse_json ty bytes =
      parse_with PipelineError.invalid_json_body (serde.json ty bytes) (serde.track_json ty bytes)

  unfoldable pub parse_form : serde.Ty → Str → Result PipelineError serde.Value
  unfolding parse_with
  parse_form ty bytes =
      parse_with PipelineError.invalid_form_body (serde.form ty bytes) (serde.track_form ty bytes)

  unfoldable pub parse_form_query : serde.Ty → Str → Result PipelineError serde.Value
  unfolding parse_with
  parse_form_query ty text =
      parse_with PipelineError.invalid_form_query (serde.form ty text) (serde.track_form ty text)

  -- `Raw` takes what turns into a body.
  module _ (Body IntoBody : Type 0) (into : IntoBody → Body) where
    abbrev pub Source : Format → Type 0
    Source json = serde.Value
    Source form = serde.Value
    Source raw = IntoBody

    -- `MapFormat::Out`
    abbrev pub Out : Format → Type 0
    Out json = Str
    Out form = Str
    Out raw = Body

    unfoldable pub finish : (f : Format) → Output (Source f) → Result PipelineError (Option (Out f))
    finish json unit = ok none
    finish json (value v) =
        map_err PipelineError.failed_serialize_mapped_json (serde.json_to_string v) >>= λ s.
        ok (some s)
    finish form unit = ok none
    finish form (value v) =
        map_err PipelineError.failed_serialize_mapped_form (serde.form_to_string v) >>= λ s.
        ok (some s)
    finish raw unit = ok none
    finish raw (value v) = ok (some (into v))
