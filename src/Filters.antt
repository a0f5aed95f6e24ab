-- ===== src/Filters.antt =====
-- The answers to exceptions: src/common/filters/global-exception.filter.ts. The details of an error,
-- and what is logged, are left out.
pub mod Answers
use Prim.Native.String.{String, ◌++◌ as str_append}
use text.Mathlib.Text.{◌==◌ as str_eq}
use sidequest_demo_be.Common.{
  ℕ, Bool, true, false, Option, none, some, leb, ◌==◌, if◌then◌else◌, or_else,
}
use sidequest_demo_be.Effects.{Exception, http, known_request, validation, other}

pub record MappedError : Type 0 where
  pub status : ℕ
  pub code : String
  pub message : String

unfoldable pub code_for_status : ℕ → String
code_for_status status =
    if status == 400
    then "BAD_REQUEST"
    else if status == 401
    then "UNAUTHORIZED"
    else if status == 403
    then "FORBIDDEN"
    else if status == 404
    then "NOT_FOUND"
    else if status == 409
    then "CONFLICT"
    else if status == 422
    then "UNPROCESSABLE_ENTITY"
    else if status == 429
    then "RATE_LIMITED"
    else if leb 500 status
    then "INTERNAL_ERROR"
    else "ERROR"

-- The payload is an object with a message, as @nestjs/common makes of a text, and a code or none.
unfoldable pub from_http_exception : ℕ → Option String → String → MappedError
from_http_exception status code message = record {
  status = status;
  code = or_else code (code_for_status status);
  message = message;
}

unfoldable pub from_prisma_known : String → MappedError
from_prisma_known code =
    if str_eq code "P2002"
    then (record {
      status = 409;
      code = "UNIQUE_CONSTRAINT_VIOLATION";
      message = "A record with the given unique field already exists";
    })
    else if str_eq code "P2025"
    then (record { status = 404; code = "NOT_FOUND"; message = "Requested record was not found" })
    else if str_eq code "P2003"
    then (record {
      status = 400;
      code = "FOREIGN_KEY_VIOLATION";
      message = "Related record is missing or invalid";
    })
    else (record { status = 500; code = str_append "PRISMA_" code; message = "Database error" })

unfoldable pub map_exception : Exception → MappedError
map_exception (http status code message) = from_http_exception status code message
map_exception (known_request code) = from_prisma_known code
map_exception validation = record {
  status = 400;
  code = "VALIDATION_ERROR";
  message = "Invalid query payload";
}
map_exception (other message) = record { status = 500; code = "INTERNAL_ERROR"; message = message }
