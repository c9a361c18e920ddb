-- ===== src/Observability.antt =====
-- apigate-core/src/observability.rs: the events that the runtime hands to an observer. Latencies are
-- in microseconds. The child module has the default observer.
pub mod Default
use apigate.Prelude.{ℕ, Bool}
use apigate.Str.{Str}
use apigate.Balancing.{ProxyErrorKind}
use apigate.Error.{FrameworkError}

module _ (Uri : Type 0) where
  pub data RuntimeEventKind : Type 0 where
    request_start : (method : Str) (uri : Uri) (has_pipeline : Bool) → RuntimeEventKind
    pipeline_failed_framework : FrameworkError → RuntimeEventKind
    pipeline_failed_custom : (status : ℕ) → RuntimeEventKind
    dispatch_failed : FrameworkError → RuntimeEventKind
    backend_selected : (backend_index : ℕ) → RuntimeEventKind
    upstream_succeeded : (backend_index status upstream_latency : ℕ) → RuntimeEventKind
    upstream_failed :
        (backend_index : ℕ) (error : ProxyErrorKind) (upstream_latency : ℕ) → RuntimeEventKind

  pub record RuntimeEvent : Type 0 where
    pub service : Str
    pub route_path : Str
    pub kind : RuntimeEventKind
