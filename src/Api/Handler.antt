-- ===== src/Api/Handler.antt =====
-- internal/api/handler.go: Handler. Binding a body is gin's: the handlers get what it gives, `none`
-- for an error. Logging is left out.
pub mod Batch
pub mod Orders
pub mod Served
use koala_v.Prelude.{ℤ, pos, negsuc, Text, bytes, utf8, [], Bool, true, false, Option, none, some}
use koala_v.Engine.Message.{Response}
use koala_v.Api.Types.{ApiRequest, ApiResponse, EngineApi}

-- A status with a JSON body, or the panic of a nil response.
pub data Answer : Type 0 where
  json : ℤ → ApiResponse → Answer
  panicked : Answer

-- A denial with a code and a message.
abbrev pub failure : ℤ → Text → ApiResponse
failure code message = record {
  allowed = false;
  code = code;
  message = message;
  rule_name = [];
  auth_type = pos 0;
}

abbrev pub bad_request : Text → Answer
bad_request message = json (pos 400) (failure (negsuc 0) message)

abbrev pub parameter_error : Answer
parameter_error = bad_request (utf8 "请求参数错误")

abbrev pub internal_error : Answer
internal_error = json (pos 500) (failure (negsuc 1) (utf8 "服务器内部错误"))

abbrev pub copy_response : Response → ApiResponse
copy_response r = record {
  allowed = r.allowed;
  code = r.code;
  message = r.message;
  rule_name = r.rule_name;
  auth_type = r.auth_type;
}

abbrev pub ok : ApiResponse
ok = record {
  allowed = true;
  code = pos 0;
  message = bytes "ok";
  rule_name = [];
  auth_type = pos 0;
}

-- RecoveryMiddleware: a panic of the handler becomes an answer.
abbrev pub recovered : Answer → Answer
recovered (json status body) = json status body
recovered panicked = json (pos 500) (failure (negsuc 499) (utf8 "服务器内部错误"))

module _ {S Err : Type 0} (engine : EngineApi S Err) where
  unfoldable pub browse : Option ApiRequest → S → Answer × S
  browse none s = (parameter_error, s)
  browse (some req) s =
      let (response, err, s₁) = engine.browse req s in
      elim err [
        | some e ↦ (internal_error, s₁)
        | none ↦ elim response [
          | none ↦ (panicked, s₁)
          | some r ↦ (json (pos 200) (copy_response r), s₁)
        ]
      ]

  -- The flag `update` is not passed on.
  unfoldable pub update : Option ApiRequest → S → Answer × S
  update none s = (parameter_error, s)
  update (some req) s =
      let (err, s₁) = engine.update (record req { update = false }) s in
      elim err [ some e ↦ (internal_error, s₁) | none ↦ (json (pos 200) ok, s₁) ]
