-- ===== src/Observability/Default.antt =====
-- apigate-core/src/observability.rs: the default observer, which logs through `tracing`. Whether a
-- target is enabled at the level DEBUG is a parameter, and so are the texts of a URI.
pub mod Levels
use apigate.Prelude.{
  ℕ, List, [], ◌∷◌, ◌++◌, String, Bool, true, false, not, Option, none, some, is_some,
  if◌then◌else◌,
}
use apigate.Str.{Str}
use apigate.Balancing.{ProxyErrorKind}
use apigate.Error.{FrameworkError, code, user_message, debug_details, status_code, is_server_error}
use apigate.Observability.{RuntimeEventKind, RuntimeEvent}

pub data Level : Type 0 where
  debug info warn : Level

pub data Target : Type 0 where
  request pipeline dispatch balancer proxy : Target

pub data Field : Type 0 where
  method path : Str → Field
  has_query has_pipeline : Bool → Field
  code_of message details : String → Field
  status backend_index upstream_latency : ℕ → Field
  error : ProxyErrorKind → Field

-- A record of `tracing`, with the two fields that all of them have.
pub record Record : Type 0 where
  pub level : Level
  pub target : Target
  pub service : Str
  pub route : Str
  pub fields : List Field
  pub text : String

module _ {Uri : Type 0} (uri_path : Uri → Str) (uri_query : Uri → Option Str)
    (enabled : Target → Bool) where
  abbrev Event : Type 0
  Event = RuntimeEvent Uri

  abbrev record_of : Event → Level → Target → List Field → String → Record
  record_of event level target fields text = record {
    level = level;
    target = target;
    service = event.service;
    route = event.route_path;
    fields = fields;
    text = text;
  }

  -- `tracing::debug!` behind the test of `tracing::enabled!`
  abbrev if_enabled : Target → Record → List Record
  if_enabled target r = if not (enabled target) then [] else r ∷ []

  abbrev level_of : ℕ → Level
  level_of s = if is_server_error s then warn else info

  unfoldable pub log_pipeline_framework_failure : Event → FrameworkError → List Record
  unfolding code user_message status_code
  log_pipeline_framework_failure event e =
      record_of event (level_of (status_code e)) pipeline
        (code_of (code e) ∷ status (status_code e) ∷ message (user_message e) ∷ [])
        "pipeline failed"
      ∷ []

  unfoldable pub log_dispatch_framework_failure : Event → FrameworkError → List Record
  unfolding code user_message status_code
  log_dispatch_framework_failure event e =
      record_of event (level_of (status_code e)) dispatch
        (code_of (code e) ∷ status (status_code e) ∷ message (user_message e) ∷ [])
        "request dispatch failed"
      ∷ []

  pub details_record : Event → Target → String → String → Option String → List Record
  details_record event target text c none = []
  details_record event target text c (some d) =
      record_of event debug target (code_of c ∷ details d ∷ []) text ∷ []

  unfoldable pub log_pipeline_debug_details : Event → FrameworkError → List Record
  unfolding code debug_details details_record
  log_pipeline_debug_details event e =
      if not (enabled pipeline)
      then []
      else details_record event pipeline "pipeline debug details" (code e) (debug_details e)

  unfoldable pub log_dispatch_debug_details : Event → FrameworkError → List Record
  unfolding code debug_details details_record
  log_dispatch_debug_details event e =
      if not (enabled dispatch)
      then []
      else details_record event dispatch "dispatch debug details" (code e) (debug_details e)

  unfoldable pub log_custom_pipeline_failure : Event → ℕ → List Record
  log_custom_pipeline_failure event s =
      record_of event (level_of s) pipeline (status s ∷ [])
        "pipeline returned custom error response"
      ∷ []

  pub observe : Event → RuntimeEventKind Uri → List Record
  unfolding log_pipeline_framework_failure log_pipeline_debug_details log_custom_pipeline_failure
      log_dispatch_framework_failure log_dispatch_debug_details
  observe event (RuntimeEventKind.request_start m uri pipelined) = if_enabled request (
      record_of event debug request
        (method m
          ∷ path (uri_path uri)
          ∷ has_query (is_some (uri_query uri))
          ∷ has_pipeline pipelined
          ∷ [])
        "request started")
  observe event (RuntimeEventKind.pipeline_failed_framework e) =
      log_pipeline_framework_failure event e ++ log_pipeline_debug_details event e
  observe event (RuntimeEventKind.pipeline_failed_custom s) = log_custom_pipeline_failure event s
  observe event (RuntimeEventKind.dispatch_failed e) =
      log_dispatch_framework_failure event e ++ log_dispatch_debug_details event e
  observe event (RuntimeEventKind.backend_selected i) =
      if_enabled balancer (record_of event debug balancer (backend_index i ∷ []) "backend selected")
  observe event (RuntimeEventKind.upstream_succeeded i s latency) = if_enabled proxy (
      record_of event debug proxy (backend_index i ∷ status s ∷ upstream_latency latency ∷ [])
        "upstream request succeeded")
  observe event (RuntimeEventKind.upstream_failed i e latency) =
      record_of event warn proxy (backend_index i ∷ error e ∷ upstream_latency latency ∷ [])
        "upstream request failed"
      ∷ []

  unfoldable pub default_tracing_observer : Event → List Record
  unfolding observe
  default_tracing_observer event = observe event event.kind
