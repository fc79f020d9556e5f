-- ===== src/Errors.antt =====
-- coap-server/src/app/error.rs. A message given as `impl ToString` is its text. `HandlingError` is
-- the message library's struct of the same two fields.
use coap_server_rs.Base.{Option, some, Text, codes}
use coap_server_rs.Coap.{
  ResponseType, internal_server_error, bad_request as bad_request_code, not_found as not_found_code,
  method_not_allowed as method_not_allowed_code,
}

pub record CoapError : Type 0 where
  pub code : Option ResponseType
  pub message : Text

pub record HandlingError : Type 0 where
  pub code : Option ResponseType
  pub message : Text

abbrev pub for_code : ResponseType → Text → CoapError
for_code c msg = record { code = some c; message = msg }

abbrev pub internal : Text → CoapError
internal msg = for_code internal_server_error msg

abbrev pub bad_request : Text → CoapError
bad_request msg = for_code bad_request_code msg

abbrev pub not_found : CoapError
not_found = for_code not_found_code (codes "Not found")

abbrev pub method_not_allowed : CoapError
method_not_allowed = for_code method_not_allowed_code (codes "Method not allowed")

abbrev pub into_handling_error : CoapError → HandlingError
into_handling_error e = record { code = e.code; message = e.message }

abbrev pub from_handling_error : HandlingError → CoapError
from_handling_error e = record { code = e.code; message = e.message }
