-- ===== src/Engine/Message.antt =====
-- internal/engine/request.go: the request, its fields by name, and the response.
use koala_v.Prelude.{
  ℤ, pos, Text, bytes, text_eq, Table, lookup, [], Bool, true, false, Option, none, some,
  if◌then◌else◌,
}

pub record Request : Type 0 where
  pub act : Text
  pub uid : Text
  pub ip : Text
  pub did : Text
  pub ext : Table Text

-- `m[k]` of a `map[string]string`: a missing key, and the nil map, give the empty string.
abbrev pub text_or_empty : Option Text → Text
text_or_empty none = []
text_or_empty (some v) = v

unfoldable pub get_field : Request → Text → Text
get_field r field =
    if text_eq field (bytes "act")
    then r.act
    else if text_eq field (bytes "uid")
    then r.uid
    else if text_eq field (bytes "ip")
    then r.ip
    else if text_eq field (bytes "did")
    then r.did
    else text_or_empty (lookup field r.ext)

pub record Response : Type 0 where
  pub allowed : Bool
  pub code : ℤ
  pub message : Text
  pub rule_name : Text
  pub auth_type : ℤ

abbrev pub new_allowed_response : Response
new_allowed_response = record {
  allowed = true;
  code = pos 0;
  message = bytes "ok";
  rule_name = [];
  auth_type = pos 0;
}

abbrev pub new_denied_response : ℤ → Text → Text → ℤ → Response
new_denied_response code message rule_name auth_type = record {
  allowed = false;
  code = code;
  message = message;
  rule_name = rule_name;
  auth_type = auth_type;
}
