-- ===== src/Error.antt =====
-- apigate-core/src/error: core_runtime.rs, pipeline_runtime.rs, framework.rs and apigate_error.rs.
-- Messages and codes are `String`s, status codes are numbers. A response that the application
-- builds itself is of a type that is a parameter. The variants of `ApigateError::json` differ in
-- the serialized body alone, and are not modelled.
pub mod Codes
use apigate.Prelude.{ℕ, String, Option, none, some, leb, ltb, ◌&&◌, Bool, ◌==◌, if◌then◌else◌}

pub data CoreError : Type 0 where
  invalid_header_name : CoreError
  invalid_header_value : CoreError
  invalid_path_parameters : CoreError
  no_backends_selected_by_balancer : CoreError
  invalid_backend_index : CoreError
  no_backends : CoreError
  invalid_upstream_uri : CoreError
  upstream_request_failed : CoreError
  upstream_request_timed_out : CoreError
  route_not_found : CoreError
  method_not_allowed : CoreError

core_message : CoreError → String
core_message invalid_header_name = "invalid header name"
core_message invalid_header_value = "invalid header value"
core_message invalid_path_parameters = "invalid path parameters"
core_message no_backends_selected_by_balancer = "no backends selected by balancer"
core_message invalid_backend_index = "balancer returned invalid backend index"
core_message no_backends = "no backends"
core_message invalid_upstream_uri = "bad upstream uri"
core_message upstream_request_failed = "upstream request failed"
core_message upstream_request_timed_out = "upstream request timed out"
core_message route_not_found = "route not found"
core_message method_not_allowed = "method not allowed"

core_status : CoreError → ℕ
core_status invalid_header_name = 400
core_status invalid_header_value = 400
core_status invalid_path_parameters = 400
core_status no_backends_selected_by_balancer = 502
core_status invalid_backend_index = 502
core_status no_backends = 502
core_status invalid_upstream_uri = 502
core_status upstream_request_failed = 502
core_status upstream_request_timed_out = 504
core_status route_not_found = 404
core_status method_not_allowed = 405

pub core_code : CoreError → String
core_code invalid_header_name = "invalid_header_name"
core_code invalid_header_value = "invalid_header_value"
core_code invalid_path_parameters = "invalid_path_parameters"
core_code no_backends_selected_by_balancer = "no_backends_selected"
core_code invalid_backend_index = "invalid_backend_index"
core_code no_backends = "no_backends"
core_code invalid_upstream_uri = "invalid_upstream_uri"
core_code upstream_request_failed = "upstream_request_failed"
core_code upstream_request_timed_out = "upstream_timeout"
core_code route_not_found = "route_not_found"
core_code method_not_allowed = "method_not_allowed"

core_details : CoreError → Option String
core_details e = none

pub data PipelineError : Type 0 where
  missing_from_scope : (detail : String) → PipelineError
  request_body_already_consumed : PipelineError
  request_body_too_large : (detail : String) → PipelineError
  invalid_json_body : (detail : String) → PipelineError
  failed_serialize_mapped_json : (detail : String) → PipelineError
  invalid_query : (detail : String) → PipelineError
  failed_serialize_mapped_query : (detail : String) → PipelineError
  failed_rebuild_uri : (detail : String) → PipelineError
  expected_form_url_encoded : PipelineError
  expected_multipart_form_data : PipelineError
  invalid_form_query : (detail : String) → PipelineError
  failed_serialize_mapped_form : (detail : String) → PipelineError
  invalid_form_body : (detail : String) → PipelineError

pipeline_message : PipelineError → String
pipeline_message (missing_from_scope detail) = "missing value in request scope"
pipeline_message request_body_already_consumed = "request body already consumed"
pipeline_message (request_body_too_large detail) = "request body is too large"
pipeline_message (invalid_json_body detail) = "invalid json body"
pipeline_message (failed_serialize_mapped_json detail) = "failed to serialize mapped json"
pipeline_message (invalid_query detail) = "invalid query"
pipeline_message (failed_serialize_mapped_query detail) = "failed to serialize mapped query"
pipeline_message (failed_rebuild_uri detail) = "failed to rebuild uri"
pipeline_message expected_form_url_encoded = "expected application/x-www-form-urlencoded"
pipeline_message expected_multipart_form_data = "expected multipart/form-data"
pipeline_message (invalid_form_query detail) = "invalid form query"
pipeline_message (failed_serialize_mapped_form detail) = "failed to serialize mapped form"
pipeline_message (invalid_form_body detail) = "invalid form body"

pipeline_status : PipelineError → ℕ
pipeline_status (missing_from_scope detail) = 500
pipeline_status request_body_already_consumed = 500
pipeline_status (request_body_too_large detail) = 413
pipeline_status (invalid_json_body detail) = 400
pipeline_status (failed_serialize_mapped_json detail) = 500
pipeline_status (invalid_query detail) = 400
pipeline_status (failed_serialize_mapped_query detail) = 500
pipeline_status (failed_rebuild_uri detail) = 500
pipeline_status expected_form_url_encoded = 415
pipeline_status expected_multipart_form_data = 415
pipeline_status (invalid_form_query detail) = 400
pipeline_status (failed_serialize_mapped_form detail) = 500
pipeline_status (invalid_form_body detail) = 400

pub pipeline_code : PipelineError → String
pipeline_code (missing_from_scope detail) = "missing_from_scope"
pipeline_code request_body_already_consumed = "request_body_already_consumed"
pipeline_code (request_body_too_large detail) = "request_body_too_large"
pipeline_code (invalid_json_body detail) = "invalid_json_body"
pipeline_code (failed_serialize_mapped_json detail) = "serialize_mapped_json_failed"
pipeline_code (invalid_query detail) = "invalid_query"
pipeline_code (failed_serialize_mapped_query detail) = "serialize_mapped_query_failed"
pipeline_code (failed_rebuild_uri detail) = "rebuild_uri_failed"
pipeline_code expected_form_url_encoded = "expected_form_urlencoded"
pipeline_code expected_multipart_form_data = "expected_multipart_form_data"
pipeline_code (invalid_form_query detail) = "invalid_form_query"
pipeline_code (failed_serialize_mapped_form detail) = "serialize_mapped_form_failed"
pipeline_code (invalid_form_body detail) = "invalid_form_body"

pipeline_details : PipelineError → Option String
pipeline_details (missing_from_scope detail) = some detail
pipeline_details request_body_already_consumed = none
pipeline_details (request_body_too_large detail) = some detail
pipeline_details (invalid_json_body detail) = some detail
pipeline_details (failed_serialize_mapped_json detail) = some detail
pipeline_details (invalid_query detail) = some detail
pipeline_details (failed_serialize_mapped_query detail) = some detail
pipeline_details (failed_rebuild_uri detail) = some detail
pipeline_details expected_form_url_encoded = none
pipeline_details expected_multipart_form_data = none
pipeline_details (invalid_form_query detail) = some detail
pipeline_details (failed_serialize_mapped_form detail) = some detail
pipeline_details (invalid_form_body detail) = some detail

pub data FrameworkError : Type 0 where
  core : CoreError → FrameworkError
  pipeline : PipelineError → FrameworkError
  http : (status : ℕ) (message : String) → FrameworkError

unfoldable pub user_message : FrameworkError → String
unfolding core_message pipeline_message
user_message (core e) = core_message e
user_message (pipeline e) = pipeline_message e
user_message (http status message) = message

unfoldable pub debug_details : FrameworkError → Option String
unfolding core_details pipeline_details
debug_details (core e) = core_details e
debug_details (pipeline e) = pipeline_details e
debug_details (http status message) = none

unfoldable pub status_code : FrameworkError → ℕ
unfolding core_status pipeline_status
status_code (core e) = core_status e
status_code (pipeline e) = pipeline_status e
status_code (http status message) = status

-- `status.is_client_error()`, `status.is_server_error()`
abbrev is_client_error : ℕ → Bool
is_client_error status = leb 400 status && ltb status 500

abbrev pub is_server_error : ℕ → Bool
is_server_error status = leb 500 status && ltb status 600

http_code : ℕ → String
http_code status =
    if status == 400
    then "bad_request"
    else if status == 401
    then "unauthorized"
    else if status == 403
    then "forbidden"
    else if status == 413
    then "payload_too_large"
    else if status == 415
    then "unsupported_media_type"
    else if status == 502
    then "bad_gateway"
    else if status == 504
    then "gateway_timeout"
    else if status == 500
    then "internal"
    else if is_client_error status
    then "client_error"
    else if is_server_error status
    then "server_error"
    else "http_error"

unfoldable pub code : FrameworkError → String
unfolding core_code pipeline_code http_code
code (core e) = core_code e
code (pipeline e) = pipeline_code e
code (http status message) = http_code status

-- The answer of the default renderer, which writes the message as plain text.
pub record PlainResponse : Type 0 where
  pub status : ℕ
  pub content_type : String
  pub body : String

pub default_error_renderer : FrameworkError → PlainResponse
unfolding status_code user_message
default_error_renderer error = record {
  status = status_code error;
  content_type = "text/plain; charset=utf-8";
  body = user_message error;
}

pub data ApigateError (Custom : Type 0) : Type 0 where
  framework : FrameworkError → ApigateError Custom
  custom : Custom → ApigateError Custom

module _ {Custom : Type 0} where
  abbrev pub new : ℕ → String → ApigateError Custom
  new status message = framework (http status message)

  abbrev pub of_core : CoreError → ApigateError Custom
  of_core e = framework (core e)

  abbrev pub of_pipeline : PipelineError → ApigateError Custom
  of_pipeline e = framework (pipeline e)

  unfoldable pub framework_error : ApigateError Custom → Option FrameworkError
  framework_error (framework error) = some error
  framework_error (custom response) = none

  unfoldable pub status_code_for_log : (Custom → ℕ) → ApigateError Custom → ℕ
  unfolding status_code
  status_code_for_log status (framework error) = status_code error
  status_code_for_log status (custom response) = status response

  unfoldable pub into_response_with : (FrameworkError → Custom) → ApigateError Custom → Custom
  into_response_with renderer (framework error) = renderer error
  into_response_with renderer (custom response) = response

  unfoldable bad_request : String → ApigateError Custom
  bad_request message = new 400 message

  unfoldable unauthorized : String → ApigateError Custom
  unauthorized message = new 401 message

  unfoldable forbidden : String → ApigateError Custom
  forbidden message = new 403 message

  unfoldable payload_too_large : String → ApigateError Custom
  payload_too_large message = new 413 message

  unfoldable unsupported_media_type : String → ApigateError Custom
  unsupported_media_type message = new 415 message

  unfoldable bad_gateway : String → ApigateError Custom
  bad_gateway message = new 502 message

  unfoldable gateway_timeout : String → ApigateError Custom
  gateway_timeout message = new 504 message

  unfoldable internal : String → ApigateError Custom
  internal message = new 500 message

  -- `response.into_response()`, and the response of a status with a body as JSON, are arguments.
  unfoldable pub from_response : Custom → ApigateError Custom
  from_response response = custom response

  unfoldable pub json : {T : Type 0} → (ℕ → T → Custom) → ℕ → T → ApigateError Custom
  unfolding from_response
  json respond status body = from_response (respond status body)

  unfoldable pub bad_request_json : {T : Type 0} → (ℕ → T → Custom) → T → ApigateError Custom
  unfolding json
  bad_request_json respond body = json respond 400 body

  unfoldable pub unauthorized_json : {T : Type 0} → (ℕ → T → Custom) → T → ApigateError Custom
  unfolding json
  unauthorized_json respond body = json respond 401 body

  unfoldable pub forbidden_json : {T : Type 0} → (ℕ → T → Custom) → T → ApigateError Custom
  unfolding json
  forbidden_json respond body = json respond 403 body
