-- ===== src/Error.antt =====
-- `DnsError` of src/dns/error.rs.
use rust_dns_server.Base.{ℕ, ◌++◌}
use rust_dns_server.Text.{Text, ascii, decimal}

-- The payload of `io_error` is the error's text, which is all that the program reads of it.
pub data DnsError : Type 0 where
  parse_error : Text → DnsError
  serialize_error : Text → DnsError
  name_too_long : DnsError
  label_too_long : DnsError
  buffer_too_short : DnsError
  invalid_pointer : DnsError
  pointer_loop : DnsError
  unknown_record_type : ℕ → DnsError
  io_error : Text → DnsError
  truncated : DnsError

-- `Display`
unfoldable pub error_text : DnsError → Text
error_text (parse_error message) = ascii "Parse error: " ++ message
error_text (serialize_error message) = ascii "Serialize error: " ++ message
error_text name_too_long = ascii "Domain name exceeds 255 bytes"
error_text label_too_long = ascii "Label exceeds 63 bytes"
error_text buffer_too_short = ascii "Buffer too short"
error_text invalid_pointer = ascii "Invalid compression pointer"
error_text pointer_loop = ascii "Compression pointer loop detected"
error_text (unknown_record_type n) = ascii "Unknown record type: " ++ decimal n
error_text (io_error message) = ascii "IO error: " ++ message
error_text truncated = ascii "Message truncated"

-- `Result<T, DnsError>`
pub data Result (A : Type 0) : Type 0 where
  err : DnsError → Result A
  ok : A → Result A

infixl 5 ◌>>=◌
abbrev pub ◌>>=◌ : {A B : Type 0} → Result A → (A → Result B) → Result B
err reason >>= next = err reason
ok value >>= next = next value
