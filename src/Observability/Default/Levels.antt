-- ===== src/Observability/Default/Levels.antt =====
-- What the default observer lets out, and at which level.
use apigate.Prelude.{
  ◌≡◌, refl, List, [], ◌∷◌, Bool, true, false, not, String, Option, none, some, All, Bool-cases,
  inl, inr, if◌then◌else◌, arith,
}
use apigate.Str.{Str}
use apigate.Error.{status_code, is_server_error, debug_details}
use apigate.Observability.{RuntimeEventKind, RuntimeEvent}
use apigate.Observability.Default.{
  Level, debug, info, warn, Target, request, pipeline, dispatch, balancer, proxy, Field, details,
  Record, log_pipeline_framework_failure, log_dispatch_framework_failure,
  log_pipeline_debug_details, log_dispatch_debug_details, details_record,
  log_custom_pipeline_failure, observe, default_tracing_observer,
}

-- The kinds of event that say that a request failed on the side of the server.
abbrev pub is_server_failure : {Uri : Type 0} → RuntimeEventKind Uri → Bool
is_server_failure (RuntimeEventKind.request_start m uri p) = false
is_server_failure (RuntimeEventKind.pipeline_failed_framework e) = is_server_error (status_code e)
is_server_failure (RuntimeEventKind.pipeline_failed_custom s) = is_server_error s
is_server_failure (RuntimeEventKind.dispatch_failed e) = is_server_error (status_code e)
is_server_failure (RuntimeEventKind.backend_selected i) = false
is_server_failure (RuntimeEventKind.upstream_succeeded i s l) = false
is_server_failure (RuntimeEventKind.upstream_failed i e l) = true

abbrev pub is_warn : Level → Bool
is_warn debug = false
is_warn info = false
is_warn warn = true

abbrev pub any_warn : List Record → Bool
any_warn [] = false
any_warn (r ∷ records) = if is_warn r.level then true else any_warn records

abbrev pub has_details : List Field → Bool
has_details [] = false
has_details (details d ∷ fields) = true
has_details (_ ∷ fields) = has_details fields

module _ {Uri : Type 0} (uri_path : Uri → Str) (uri_query : Uri → Option Str)
    (enabled : Target → Bool) where
  abbrev observed : RuntimeEvent Uri → RuntimeEventKind Uri → List Record
  observed event kind = observe uri_path uri_query enabled event kind

  any_warn-observe :
      (event : RuntimeEvent Uri) (kind : RuntimeEventKind Uri)
      → any_warn (observed event kind) ≡ is_server_failure kind
  unfolding observe log_pipeline_framework_failure log_dispatch_framework_failure
      log_pipeline_debug_details log_dispatch_debug_details log_custom_pipeline_failure
  any_warn-observe event (RuntimeEventKind.request_start m uri p) = ground arith
  any_warn-observe event (RuntimeEventKind.pipeline_failed_framework e) = ground arith
  any_warn-observe event (RuntimeEventKind.pipeline_failed_custom s) = ground arith
  any_warn-observe event (RuntimeEventKind.dispatch_failed e) = ground arith
  any_warn-observe event (RuntimeEventKind.backend_selected i) = ground arith
  any_warn-observe event (RuntimeEventKind.upstream_succeeded i s l) = ground arith
  any_warn-observe event (RuntimeEventKind.upstream_failed i e l) = refl

  -- The default observer warns exactly of failures on the side of the server: of an error whose
  -- status is a server error, and of a failed call of the upstream; whatever targets are enabled.
  pub any_warn-default_tracing_observer :
      (event : RuntimeEvent Uri)
      → any_warn (default_tracing_observer uri_path uri_query enabled event)
        ≡ is_server_failure event.kind
  unfolding default_tracing_observer
  any_warn-default_tracing_observer event = any_warn-observe event event.kind

  -- A record that has the details of an error is of level DEBUG, and its target is enabled there.
  abbrev pub IsDiscreet : Record → Type 0
  IsDiscreet r = has_details r.fields ≡ true → (r.level ≡ debug) × (enabled r.target ≡ true)

  shown :
      (t : Target) (records : List Record)
      → (enabled t ≡ true → All IsDiscreet records)
      → All IsDiscreet (if not (enabled t) then [] else records)
  shown t records h = elim (Bool-cases (enabled t)) [ inl on ↦ rw on (h on) | inr off ↦ rw off tt ]

  details_record-IsDiscreet :
      (event : RuntimeEvent Uri) (t : Target) (text c : String) (d : Option String)
      → enabled t ≡ true
      → All IsDiscreet (details_record uri_path uri_query enabled event t text c d)
  unfolding details_record
  details_record-IsDiscreet event t text c none on = tt
  details_record-IsDiscreet event t text c (some d) on = (λ h. (refl, on), tt)

  observe-IsDiscreet :
      (event : RuntimeEvent Uri) (kind : RuntimeEventKind Uri)
      → All IsDiscreet (observed event kind)
  unfolding observe
  observe-IsDiscreet event (RuntimeEventKind.request_start m uri p) =
      shown request _ (λ on. (λ h. (refl, on), tt))
  observe-IsDiscreet event (RuntimeEventKind.pipeline_failed_framework e) = (
    λ h. cc,
    shown pipeline _ (λ on. details_record-IsDiscreet event pipeline _ _ (debug_details e) on),
  )
  observe-IsDiscreet event (RuntimeEventKind.pipeline_failed_custom s) = (λ h. cc, tt)
  observe-IsDiscreet event (RuntimeEventKind.dispatch_failed e) = (
    λ h. cc,
    shown dispatch _ (λ on. details_record-IsDiscreet event dispatch _ _ (debug_details e) on),
  )
  observe-IsDiscreet event (RuntimeEventKind.backend_selected i) =
      shown balancer _ (λ on. (λ h. (refl, on), tt))
  observe-IsDiscreet event (RuntimeEventKind.upstream_succeeded i s l) =
      shown proxy _ (λ on. (λ h. (refl, on), tt))
  observe-IsDiscreet event (RuntimeEventKind.upstream_failed i e l) = (λ h. cc, tt)

  -- A record of the default observer that has the details of an error is of level DEBUG, and its
  -- target is enabled at that level.
  pub default_tracing_observer-IsDiscreet :
      (event : RuntimeEvent Uri)
      → All IsDiscreet (default_tracing_observer uri_path uri_query enabled event)
  unfolding default_tracing_observer
  default_tracing_observer-IsDiscreet event = observe-IsDiscreet event event.kind
