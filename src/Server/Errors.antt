-- ===== src/Server/Errors.antt =====
-- Errors of an analysis and the responses to them: src/errors/error.ts and
-- src/routing/errors/middleware.ts.
pub mod Laws
use sonar_js.Prelude.{ℕ, ◌≡◌, Option, none, some, List, [], Text}
use sonar_js.Metrics.Compute.{Metrics}
use sonar_js.Metrics.Cpd.{CpdToken}
use sonar_js.Metrics.Highlighting.{SyntaxHighlight}
use sonar_js.Metrics.Symbols.{SymbolHighlight}
use sonar_js.Linter.Issues.{Issue}

pub data ErrorCode : Type 0 where
  parsing failing_type_script unexpected linter_initialization : ErrorCode

-- `APIError`; the data is the line
pub record ApiError : Type 0 where
  pub code : ErrorCode
  pub message : Text
  pub data_line : Option ℕ

unfoldable pub failing_type_script_error : Text → ApiError
failing_type_script_error message = record {
  code = failing_type_script;
  message = message;
  data_line = none;
}

pub linter_error : Text → ApiError
linter_error message = record { code = linter_initialization; message = message; data_line = none }

pub parsing_error : Text → ℕ → ApiError
parsing_error message line = record { code = parsing; message = message; data_line = some line }

pub unexpected_error : Text → ApiError
unexpected_error message = record { code = unexpected; message = message; data_line = none }

-- What is thrown: an `APIError`, or another error with its message.
pub data Error : Type 0 where
  api_error : ApiError → Error
  other_error : Text → Error

unfoldable pub error_message : Error → Text
error_message (api_error e) = e.message
error_message (other_error message) = message

pub record JsTsAnalysisOutput : Type 0 where
  pub issues : List Issue
  pub highlights : List SyntaxHighlight
  pub highlighted_symbols : List SymbolHighlight
  pub metrics : Metrics
  pub cpd_tokens : List CpdToken
  pub parse_time : ℕ
  pub analysis_time : ℕ

-- `EMPTY_JSTS_ANALYSIS_OUTPUT`
pub empty_jsts_analysis_output : JsTsAnalysisOutput
empty_jsts_analysis_output = record {
  issues = [];
  highlights = [];
  highlighted_symbols = [];
  metrics = record {
    ncloc = [];
    comment_lines = [];
    nosonar_lines = [];
    executable_lines = [];
    functions = 0;
    statements = 0;
    classes = 0;
    complexity = 0;
    cognitive_complexity = 0;
  };
  cpd_tokens = [];
  parse_time = 0;
  analysis_time = 0;
}

-- the JSON objects that are sent back
pub data Response : Type 0 where
  parsing_failure : Text → ErrorCode → Option ℕ → JsTsAnalysisOutput → Response
  analysis_failure : Text → ErrorCode → Response
  failure : Text → Response

-- the error whose code is looked at
unfoldable pub as_api_error : Error → ApiError
unfolding unexpected_error
as_api_error (api_error e) = e
as_api_error (other_error message) = unexpected_error message

respond : Error → ErrorCode → ApiError → Response
unfolding empty_jsts_analysis_output error_message
respond error parsing e = parsing_failure e.message e.code e.data_line empty_jsts_analysis_output
respond error failing_type_script e = analysis_failure e.message e.code
respond error linter_initialization e = analysis_failure e.message e.code
respond error unexpected e = failure (error_message error)

-- `errorMiddleware`
pub error_middleware : Error → Response
unfolding respond as_api_error
error_middleware error = respond error (as_api_error error).code (as_api_error error)
