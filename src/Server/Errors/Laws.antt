-- ===== src/Server/Errors/Laws.antt =====
-- What a client reads off the response to an error.
use sonar_js.Prelude.{◌≡◌, refl, Text}
use sonar_js.Server.Errors.{
  ErrorCode, parsing, failing_type_script, unexpected, linter_initialization, ApiError, Error,
  api_error, other_error, error_message, Response, parsing_failure, analysis_failure, failure,
  as_api_error, respond, error_middleware, unexpected_error,
}

-- the code, the message and the line that a response carries
pub code_in : Response → ErrorCode
code_in (parsing_failure message code line output) = code
code_in (analysis_failure message code) = code
code_in (failure message) = unexpected

pub message_in : Response → Text
message_in (parsing_failure message code line output) = message
message_in (analysis_failure message code) = message
message_in (failure message) = message

responded :
    (error : Error) (code : ErrorCode) (e : ApiError)
    → e.code ≡ code
    → e.message ≡ error_message error
    → (code_in (respond error code e) ≡ code)
      × (message_in (respond error code e) ≡ error_message error)
unfolding code_in message_in respond
responded error parsing e c m = (c, m)
responded error failing_type_script e c m = (c, m)
responded error linter_initialization e c m = (c, m)
responded error unexpected e c m = (refl, refl)

as_api_error-message : (error : Error) → (as_api_error error).message ≡ error_message error
unfolding as_api_error error_message unexpected_error
as_api_error-message (api_error e) = refl
as_api_error-message (other_error message) = refl

-- Each response carries the message of the error and tells its code, where a response without a
-- code stands for an unexpected error, as errors other than `APIError` are.
pub error_middleware_lem :
    (error : Error)
    → (code_in (error_middleware error) ≡ (as_api_error error).code)
      × (message_in (error_middleware error) ≡ error_message error)
unfolding error_middleware
error_middleware_lem error =
    responded error (as_api_error error).code (as_api_error error) refl (as_api_error-message error)
