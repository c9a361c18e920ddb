-- ===== src/Error/Codes.antt =====
-- The codes and the statuses of the framework's errors.
use text.Mathlib.Text.{◌==◌ as str_eq}
use apigate.Prelude.{◌≤◌, ◌<◌, ◌≡◌, refl, String, Option, none, some, arith, if◌then◌else◌}
use apigate.Error.{
  CoreError, PipelineError, core, pipeline, core_code, pipeline_code, status_code,
  default_error_renderer, PlainResponse,
}

-- The shape of an error, without its details.
pub data Kind : Type 0 where
  of_core : CoreError → Kind
  missing_from_scope : Kind
  request_body_already_consumed : Kind
  request_body_too_large : Kind
  invalid_json_body : Kind
  failed_serialize_mapped_json : Kind
  invalid_query : Kind
  failed_serialize_mapped_query : Kind
  failed_rebuild_uri : Kind
  expected_form_url_encoded : Kind
  expected_multipart_form_data : Kind
  invalid_form_query : Kind
  failed_serialize_mapped_form : Kind
  invalid_form_body : Kind

kind_of_pipeline : PipelineError → Kind
kind_of_pipeline (PipelineError.missing_from_scope detail) = Kind.missing_from_scope
kind_of_pipeline PipelineError.request_body_already_consumed = Kind.request_body_already_consumed
kind_of_pipeline (PipelineError.request_body_too_large detail) = Kind.request_body_too_large
kind_of_pipeline (PipelineError.invalid_json_body detail) = Kind.invalid_json_body
kind_of_pipeline (PipelineError.failed_serialize_mapped_json detail) =
    Kind.failed_serialize_mapped_json
kind_of_pipeline (PipelineError.invalid_query detail) = Kind.invalid_query
kind_of_pipeline (PipelineError.failed_serialize_mapped_query detail) =
    Kind.failed_serialize_mapped_query
kind_of_pipeline (PipelineError.failed_rebuild_uri detail) = Kind.failed_rebuild_uri
kind_of_pipeline PipelineError.expected_form_url_encoded = Kind.expected_form_url_encoded
kind_of_pipeline PipelineError.expected_multipart_form_data = Kind.expected_multipart_form_data
kind_of_pipeline (PipelineError.invalid_form_query detail) = Kind.invalid_form_query
kind_of_pipeline (PipelineError.failed_serialize_mapped_form detail) =
    Kind.failed_serialize_mapped_form
kind_of_pipeline (PipelineError.invalid_form_body detail) = Kind.invalid_form_body

-- The errors by their codes.
kind_of_code : String → Option Kind
kind_of_code s =
    if str_eq s "invalid_header_name"
    then some (Kind.of_core CoreError.invalid_header_name)
    else if str_eq s "invalid_header_value"
    then some (Kind.of_core CoreError.invalid_header_value)
    else if str_eq s "invalid_path_parameters"
    then some (Kind.of_core CoreError.invalid_path_parameters)
    else if str_eq s "no_backends_selected"
    then some (Kind.of_core CoreError.no_backends_selected_by_balancer)
    else if str_eq s "invalid_backend_index"
    then some (Kind.of_core CoreError.invalid_backend_index)
    else if str_eq s "no_backends"
    then some (Kind.of_core CoreError.no_backends)
    else if str_eq s "invalid_upstream_uri"
    then some (Kind.of_core CoreError.invalid_upstream_uri)
    else if str_eq s "upstream_request_failed"
    then some (Kind.of_core CoreError.upstream_request_failed)
    else if str_eq s "upstream_timeout"
    then some (Kind.of_core CoreError.upstream_request_timed_out)
    else if str_eq s "route_not_found"
    then some (Kind.of_core CoreError.route_not_found)
    else if str_eq s "method_not_allowed"
    then some (Kind.of_core CoreError.method_not_allowed)
    else if str_eq s "missing_from_scope"
    then some (Kind.missing_from_scope)
    else if str_eq s "request_body_already_consumed"
    then some (Kind.request_body_already_consumed)
    else if str_eq s "request_body_too_large"
    then some (Kind.request_body_too_large)
    else if str_eq s "invalid_json_body"
    then some (Kind.invalid_json_body)
    else if str_eq s "serialize_mapped_json_failed"
    then some (Kind.failed_serialize_mapped_json)
    else if str_eq s "invalid_query"
    then some (Kind.invalid_query)
    else if str_eq s "serialize_mapped_query_failed"
    then some (Kind.failed_serialize_mapped_query)
    else if str_eq s "rebuild_uri_failed"
    then some (Kind.failed_rebuild_uri)
    else if str_eq s "expected_form_urlencoded"
    then some (Kind.expected_form_url_encoded)
    else if str_eq s "expected_multipart_form_data"
    then some (Kind.expected_multipart_form_data)
    else if str_eq s "invalid_form_query"
    then some (Kind.invalid_form_query)
    else if str_eq s "serialize_mapped_form_failed"
    then some (Kind.failed_serialize_mapped_form)
    else if str_eq s "invalid_form_body"
    then some (Kind.invalid_form_body)
    else none

core-kind : (e : CoreError) → kind_of_code (core_code e) ≡ some (Kind.of_core e)
unfolding kind_of_code core_code
core-kind CoreError.invalid_header_name = refl
core-kind CoreError.invalid_header_value = refl
core-kind CoreError.invalid_path_parameters = refl
core-kind CoreError.no_backends_selected_by_balancer = refl
core-kind CoreError.invalid_backend_index = refl
core-kind CoreError.no_backends = refl
core-kind CoreError.invalid_upstream_uri = refl
core-kind CoreError.upstream_request_failed = refl
core-kind CoreError.upstream_request_timed_out = refl
core-kind CoreError.route_not_found = refl
core-kind CoreError.method_not_allowed = refl

pipeline-kind : (e : PipelineError) → kind_of_code (pipeline_code e) ≡ some (kind_of_pipeline e)
unfolding kind_of_code pipeline_code kind_of_pipeline
pipeline-kind (PipelineError.missing_from_scope detail) = refl
pipeline-kind PipelineError.request_body_already_consumed = refl
pipeline-kind (PipelineError.request_body_too_large detail) = refl
pipeline-kind (PipelineError.invalid_json_body detail) = refl
pipeline-kind (PipelineError.failed_serialize_mapped_json detail) = refl
pipeline-kind (PipelineError.invalid_query detail) = refl
pipeline-kind (PipelineError.failed_serialize_mapped_query detail) = refl
pipeline-kind (PipelineError.failed_rebuild_uri detail) = refl
pipeline-kind PipelineError.expected_form_url_encoded = refl
pipeline-kind PipelineError.expected_multipart_form_data = refl
pipeline-kind (PipelineError.invalid_form_query detail) = refl
pipeline-kind (PipelineError.failed_serialize_mapped_form detail) = refl
pipeline-kind (PipelineError.invalid_form_body detail) = refl

core_range : (e : CoreError) → (400 ≤ status_code (core e)) × (status_code (core e) < 600)
unfolding status_code
core_range CoreError.invalid_header_name = omega arith
core_range CoreError.invalid_header_value = omega arith
core_range CoreError.invalid_path_parameters = omega arith
core_range CoreError.no_backends_selected_by_balancer = omega arith
core_range CoreError.invalid_backend_index = omega arith
core_range CoreError.no_backends = omega arith
core_range CoreError.invalid_upstream_uri = omega arith
core_range CoreError.upstream_request_failed = omega arith
core_range CoreError.upstream_request_timed_out = omega arith
core_range CoreError.route_not_found = omega arith
core_range CoreError.method_not_allowed = omega arith

pipeline_range :
    (e : PipelineError) → (400 ≤ status_code (pipeline e)) × (status_code (pipeline e) < 600)
unfolding status_code
pipeline_range (PipelineError.missing_from_scope detail) = omega arith
pipeline_range PipelineError.request_body_already_consumed = omega arith
pipeline_range (PipelineError.request_body_too_large detail) = omega arith
pipeline_range (PipelineError.invalid_json_body detail) = omega arith
pipeline_range (PipelineError.failed_serialize_mapped_json detail) = omega arith
pipeline_range (PipelineError.invalid_query detail) = omega arith
pipeline_range (PipelineError.failed_serialize_mapped_query detail) = omega arith
pipeline_range (PipelineError.failed_rebuild_uri detail) = omega arith
pipeline_range PipelineError.expected_form_url_encoded = omega arith
pipeline_range PipelineError.expected_multipart_form_data = omega arith
pipeline_range (PipelineError.invalid_form_query detail) = omega arith
pipeline_range (PipelineError.failed_serialize_mapped_form detail) = omega arith
pipeline_range (PipelineError.invalid_form_body detail) = omega arith

-- The answer to an error, by its shape.
answer : Kind → PlainResponse
answer (Kind.of_core e) = default_error_renderer (core e)
answer Kind.missing_from_scope =
    default_error_renderer (pipeline (PipelineError.missing_from_scope ""))
answer Kind.request_body_already_consumed =
    default_error_renderer (pipeline PipelineError.request_body_already_consumed)
answer Kind.request_body_too_large =
    default_error_renderer (pipeline (PipelineError.request_body_too_large ""))
answer Kind.invalid_json_body =
    default_error_renderer (pipeline (PipelineError.invalid_json_body ""))
answer Kind.failed_serialize_mapped_json =
    default_error_renderer (pipeline (PipelineError.failed_serialize_mapped_json ""))
answer Kind.invalid_query = default_error_renderer (pipeline (PipelineError.invalid_query ""))
answer Kind.failed_serialize_mapped_query =
    default_error_renderer (pipeline (PipelineError.failed_serialize_mapped_query ""))
answer Kind.failed_rebuild_uri =
    default_error_renderer (pipeline (PipelineError.failed_rebuild_uri ""))
answer Kind.expected_form_url_encoded =
    default_error_renderer (pipeline PipelineError.expected_form_url_encoded)
answer Kind.expected_multipart_form_data =
    default_error_renderer (pipeline PipelineError.expected_multipart_form_data)
answer Kind.invalid_form_query =
    default_error_renderer (pipeline (PipelineError.invalid_form_query ""))
answer Kind.failed_serialize_mapped_form =
    default_error_renderer (pipeline (PipelineError.failed_serialize_mapped_form ""))
answer Kind.invalid_form_body =
    default_error_renderer (pipeline (PipelineError.invalid_form_body ""))

answer_lem : (e : PipelineError) → default_error_renderer (pipeline e) ≡ answer (kind_of_pipeline e)
unfolding answer default_error_renderer kind_of_pipeline
answer_lem (PipelineError.missing_from_scope detail) = refl
answer_lem PipelineError.request_body_already_consumed = refl
answer_lem (PipelineError.request_body_too_large detail) = refl
answer_lem (PipelineError.invalid_json_body detail) = refl
answer_lem (PipelineError.failed_serialize_mapped_json detail) = refl
answer_lem (PipelineError.invalid_query detail) = refl
answer_lem (PipelineError.failed_serialize_mapped_query detail) = refl
answer_lem (PipelineError.failed_rebuild_uri detail) = refl
answer_lem PipelineError.expected_form_url_encoded = refl
answer_lem PipelineError.expected_multipart_form_data = refl
answer_lem (PipelineError.invalid_form_query detail) = refl
answer_lem (PipelineError.failed_serialize_mapped_form detail) = refl
answer_lem (PipelineError.invalid_form_body detail) = refl

-- Codes identify errors: one decoding of codes gives back every core error, and every pipeline
-- error up to its details, so that no two of them share a code.
kind_of_code-code :
    ((e : CoreError) → kind_of_code (core_code e) ≡ some (Kind.of_core e))
    × ((e : PipelineError) → kind_of_code (pipeline_code e) ≡ some (kind_of_pipeline e))
kind_of_code-code = (core-kind, pipeline-kind)

-- Every error of the gateway itself has an error status, and the answer of the default renderer to
-- a pipeline error depends on its variant alone, so it shows no details.
default_error_renderer_lem :
    ((e : CoreError) → (400 ≤ status_code (core e)) × (status_code (core e) < 600))
    × ((e : PipelineError) → (400 ≤ status_code (pipeline e)) × (status_code (pipeline e) < 600))
    × ((e : PipelineError) → default_error_renderer (pipeline e) ≡ answer (kind_of_pipeline e))
default_error_renderer_lem = (core_range, pipeline_range, answer_lem)
