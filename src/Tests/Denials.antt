-- ===== src/Tests/Denials.antt =====
-- A network in which every server denies every name.
use rust_dns_server.Base.{
  ◌≡◌, refl, ap, ◌∙◌, true, false, none, some, [], length, take, arith, Bytes,
}
use rust_dns_server.Text.{ascii_text}
use rust_dns_server.Codes.OpCode
use rust_dns_server.Codes.RecordType
use rust_dns_server.Codes.ResponseCode
use rust_dns_server.Header
use rust_dns_server.Message
use rust_dns_server.Message.{DnsMessage, counted}
use rust_dns_server.Cache
use rust_dns_server.Cache.ListLru.{find}
use rust_dns_server.Action.{perform, ◌>>=◌}
use rust_dns_server.Server.{reply, handle_query}
use rust_dns_server.Server.Answers.{parse-sent, ReadsAs}
use rust_dns_server.Server.Denied.{handle_query-denied}
use rust_dns_server.Resolver.{resolve}
use rust_dns_server.Resolver.Environment.{Network, datagram, cache_lookup}
use rust_dns_server.Resolver.Recursive.{root_servers, is_name_error, at_port_53}
use rust_dns_server.Resolver.Uncached.{IsUncached, missed}
use rust_dns_server.Resolver.Found.{Exchange, answered}
use rust_dns_server.Tests.Data.{www_ab, question, message}
use rust_dns_server.Tests.Messages.{message-IsWire}
use rust_dns_server.Tests.Validators.{lenient}
use rust_dns_server.Tests.Resolvers.{lru, Here, start, no_zone}

abbrev denial : DnsMessage
denial = record {
  header = record (Header.new_query 7) {
    is_response = true;
    response_code = ResponseCode.name_error;
  };
  questions = [];
  answers = [];
  authorities = [];
  additional = [];
}

denial-IsWire : Message.Wire.IsWire denial
unfolding OpCode.to_u8 OpCode.from_u8 ResponseCode.to_u8 ResponseCode.from_u8 Header.new_query
denial-IsWire = record {
  id_fits = omega arith;
  opcode_fits = omega arith;
  opcode_known = refl;
  code_fits = omega arith;
  code_known = refl;
  questions_fit = tt;
  answers_fit = tt;
  authorities_fit = tt;
  additional_fit = tt;
  questions_count = omega arith;
  answers_count = omega arith;
  authorities_count = omega arith;
  additional_count = omega arith;
}

abbrev heard : DnsMessage
heard = record denial { header = counted denial }

short : take 4096 (Message.serialize denial) ≡ Message.serialize denial
unfolding Message.serialize counted Message.write_questions Message.write_records Header.serialize
    Header.new_query
short = refl

abbrev denying : Network Here
denying = record {
  random_u16 = λ w. (7, w);
  random_usize = λ w. (5, w);
  instant = λ w. (0, w);
  seconds = λ w. (some 0, w);
  bind_udp = λ w. (true, w);
  send_udp = λ bytes addr w. (true, w);
  recv_udp = λ w. (datagram (Message.serialize denial), w);
  connect_tcp = λ addr w. (false, w);
  write_tcp = λ bytes w. (false, w);
  read_tcp = λ n w. (none, w);
}

nothing_cached : IsUncached lru lenient true denying www_ab RecordType.mx start
unfolding cache_lookup Cache.lookup perform ◌>>=◌ Cache.serve find Cache.new
nothing_cached = record { no_records = refl; no_alias = refl }

exchange :
    Exchange denying true www_ab RecordType.mx root_servers
      (missed lru lenient true denying www_ab RecordType.mx start)
      heard
unfolding counted Header.new_query
exchange = record {
  server = at_port_53 (record { octet0 = 192; octet1 = 5; octet2 = 5; octet3 = 241 });
  payload = Message.serialize denial;
  read_until = length (Message.serialize denial);
  picked = refl;
  bound = refl;
  sent = refl;
  arrived = refl;
  parsed = ap Message.parse short ∙ parse-sent denial denial-IsWire;
  same_id = refl;
  whole = refl;
}

denies : is_name_error heard.header.response_code ≡ true
unfolding is_name_error counted Header.new_query
denies = refl

handle_query-denied_example :
    (bytes : Bytes) × (handle_query
        (resolve lru lenient true denying 9 [])
        (Message.serialize message)
        start
      ≡ (reply bytes, answered denying exchange))
    × ReadsAs message ResponseCode.name_error [] bytes
handle_query-denied_example =
    handle_query-denied lru lenient true denying 8 [] message question [] start heard exchange
      message-IsWire refl no_zone nothing_cached denies
