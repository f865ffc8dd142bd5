-- ===== src/Utils/Error.antt =====
-- src/utils/parse.rs: the reasons of a `ParseError`, one constructor for each format.
use bgpd_rs.Base.{ℕ}
use bgpd_rs.Base.Text.{Text}

pub data ParseError : Type 0 where
  bad_number unsupported_asn bad_prefix not_a_prefix bad_value : Text → ParseError
  bad_community : ParseError
  bad_asn : ParseError → ParseError
  bad_afi : ℕ → ParseError
  no_action : ParseError
  bad_action unsupported_action bad_redirect bad_rate bad_dscp : Text → ParseError
  invalid_dscp : ℕ → ParseError
  bad_match unsupported_match unreadable_prefix : Text → ParseError
