-- ===== src/Audit/AuthFields.antt =====
-- applyAuthFields of internal/audit/service.go: what an entry takes out of its details.
use knxvault.Prelude.{Option, none, some, [], Text, codes, str_eq, Text-discrete, if◌then◌else◌}
use knxvault.Audit.Redact.{Detail, text, Fields, end_fields, field}

-- The fields of Entry from AuthMethod on.
pub record AuthFields : Type 0 where
  pub auth_method : Text
  pub source_ip : Text
  pub client_identity : Text
  pub failure_reason : Text
  pub request_id : Text
  pub namespace : Text

-- v, ok := details[key].(string), where "" stands for a value that is no string.
abbrev text_of : Detail → Text
text_of (text s) = s
text_of _ = []

unfoldable pub text_at : Text → Fields → Text
unfolding Text-discrete
text_at key end_fields = []
text_at key (field k value fs) = if str_eq k key then text_of value else text_at key fs

-- applyAuthFields
unfoldable pub apply_auth_fields : Option Fields → AuthFields
unfolding text_at
apply_auth_fields none = record {
  auth_method = [];
  source_ip = [];
  client_identity = [];
  failure_reason = [];
  request_id = [];
  namespace = [];
}
apply_auth_fields (some fs) = record {
  auth_method = text_at (codes "auth_method") fs;
  source_ip = text_at (codes "source_ip") fs;
  client_identity = text_at (codes "client_identity") fs;
  failure_reason = text_at (codes "failure_reason") fs;
  request_id = text_at (codes "request_id") fs;
  namespace = text_at (codes "namespace") fs;
}
