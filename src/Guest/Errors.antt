-- ===== src/Guest/Errors.antt =====
-- What can go wrong in a command (guest_reply/errors.py), with the exit code of each class of failure
-- (`EXIT_CODES` of guest_reply/cli.py).
use holahost.Base.{ℕ, String, Option, none, some, List, if◌then◌else◌}
use holahost.Auth.{Members, is_empty}

-- The subclasses of `GuestReplyError`.
pub data Class : Type 0 where
  configuration file_unreadable document_not_found request_rejected : Class
  limit_reached provider_unavailable token_rejected : Class
  service_unreachable unexpected_response : Class

-- `type(self).__name__`
abbrev pub class_name : Class → String
class_name configuration = "ConfigurationError"
class_name file_unreadable = "FileUnreadableError"
class_name document_not_found = "DocumentNotFoundError"
class_name request_rejected = "RequestRejectedError"
class_name limit_reached = "LimitReachedError"
class_name provider_unavailable = "ProviderUnavailableError"
class_name token_rejected = "TokenRejectedError"
class_name service_unreachable = "ServiceUnreachableError"
class_name unexpected_response = "UnexpectedResponseError"

pub record GuestReplyError : Type 0 where
  pub class : Class
  pub message : String
  pub code : String
  pub details : Members

pub record CleanupFailure : Type 0 where
  pub document_id : String
  pub error : GuestReplyError

-- `code or type(self).__name__`
abbrev pub code_of : Option String → Class → String
code_of none c = class_name c
code_of (some code) c = if is_empty code then class_name c else code

-- `GuestReplyError.__init__`, of the class
unfoldable pub new_error : Class → String → Option String → Members → GuestReplyError
new_error c message code details = record {
  class = c;
  message = message;
  code = code_of code c;
  details = details;
}

-- `EXIT_CODES`
unfoldable pub exit_code : Class → ℕ
exit_code configuration = 1
exit_code file_unreadable = 3
exit_code document_not_found = 4
exit_code limit_reached = 6
exit_code provider_unavailable = 7
exit_code service_unreachable = 8
exit_code unexpected_response = 9
exit_code token_rejected = 10
exit_code request_rejected = 11

-- What leaves a call: one of this tool's errors with the `cleanup_failure` it carries, or any other
-- exception, with its notes.
pub data Raised : Type 0 where
  failed : GuestReplyError → Option CleanupFailure → Raised
  defect : List (String × String) → Raised
