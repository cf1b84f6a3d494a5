-- ===== src/Tests/Data.antt =====
-- Names, records and a message on which the tests run.
use rust_dns_server.Base.{true, [], ◌∷◌}
use rust_dns_server.Text.{Text}
use rust_dns_server.Name.{DnsName}
use rust_dns_server.Codes.RecordType
use rust_dns_server.Codes.RecordClass
use rust_dns_server.Header.{DnsHeader}
use rust_dns_server.Rdata.{a, mx}
use rust_dns_server.Question.{DnsQuestion}
use rust_dns_server.Record.{DnsRecord}
use rust_dns_server.Message.{DnsMessage}
use rust_dns_server.Codes.OpCode
use rust_dns_server.Codes.ResponseCode

-- "www" and "ab"
abbrev pub www : Text
www = b'w' ∷ b'w' ∷ b'w' ∷ []

abbrev pub ab : Text
ab = b'a' ∷ b'b' ∷ []

abbrev pub www_ab : DnsName
www_ab = record { labels = www ∷ ab ∷ [] }

abbrev pub header : DnsHeader
header = record {
  id = 4660;
  is_response = true;
  opcode = OpCode.status;
  authoritative = true;
  truncated = true;
  recursion_desired = true;
  recursion_available = true;
  authentic_data = true;
  checking_disabled = true;
  response_code = ResponseCode.name_error;
  question_count = 1;
  answer_count = 2;
  authority_count = 0;
  additional_count = 0;
}

abbrev pub question : DnsQuestion
question = record {
  name = www_ab;
  record_type = RecordType.mx;
  record_class = RecordClass.in_class;
}

abbrev pub mail : DnsRecord
mail = record {
  name = www_ab;
  record_type = RecordType.mx;
  record_class = RecordClass.in_class;
  ttl = 300;
  rdata = mx 10 www_ab;
}

abbrev pub address : DnsRecord
address = record {
  name = www_ab;
  record_type = RecordType.a;
  record_class = RecordClass.in_class;
  ttl = 60;
  rdata = a (record { octet0 = 192; octet1 = 0; octet2 = 2; octet3 = 1 });
}

abbrev pub message : DnsMessage
message = record {
  header = header;
  questions = question ∷ [];
  answers = mail ∷ address ∷ [];
  authorities = [];
  additional = [];
}
