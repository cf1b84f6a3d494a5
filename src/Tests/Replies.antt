-- ===== src/Tests/Replies.antt =====
-- A network in which every server answers, and the resolver's theorem on it.
use rust_dns_server.Base.{
  ◌<◌, ◌≡◌, ◌≢◌, refl, ap, ◌∙◌, true, false, none, some, [], ◌∷◌, map, length, take, arith,
}
use rust_dns_server.Text.{ascii_text}
use rust_dns_server.Name
use rust_dns_server.Codes.OpCode
use rust_dns_server.Codes.RecordType
use rust_dns_server.Codes.ResponseCode
use rust_dns_server.Header
use rust_dns_server.Rdata
use rust_dns_server.Record
use rust_dns_server.Question
use rust_dns_server.Message
use rust_dns_server.Message.{DnsMessage, counted}
use rust_dns_server.Cache
use rust_dns_server.Cache.{min_ttl, with_ttl, smaller, max_ttl, from_secs}
use rust_dns_server.Cache.Lookup.{left}
use rust_dns_server.Cache.Lru.{LruCache}
use rust_dns_server.Cache.ListLru.{find}
use rust_dns_server.Dnssec.{of_type}
use rust_dns_server.Action.{done, perform, ◌>>=◌}
use rust_dns_server.Server.Answers.{parse-sent}
use rust_dns_server.Resolver.{resolve}
use rust_dns_server.Resolver.Environment.{Network, datagram, cache_lookup}
use rust_dns_server.Resolver.Recursive.{root_servers, is_name_error, at_port_53}
use rust_dns_server.Resolver.Uncached.{IsUncached, missed}
use rust_dns_server.Resolver.Found.{Exchange, answered}
use rust_dns_server.Resolver.Remember.{
  Answers, validated, remembered, lifetime, later_age, resolve-remembered,
}
use rust_dns_server.Tests.Data.{www_ab, question, mail, address}
use rust_dns_server.Tests.Messages.{mail-IsWire, address-IsWire, question-IsWire}
use rust_dns_server.Tests.Validators.{lenient}
use rust_dns_server.Tests.Resolvers.{lru, Here, start, no_zone}

abbrev response : DnsMessage
response = record {
  header = record (Header.new_query 7) { is_response = true };
  questions = question ∷ [];
  answers = mail ∷ address ∷ [];
  authorities = [];
  additional = [];
}

response-IsWire : Message.Wire.IsWire response
unfolding OpCode.to_u8 OpCode.from_u8 ResponseCode.to_u8 ResponseCode.from_u8 Header.new_query
response-IsWire = record {
  id_fits = omega arith;
  opcode_fits = omega arith;
  opcode_known = refl;
  code_fits = omega arith;
  code_known = refl;
  questions_fit = (question-IsWire, tt);
  answers_fit = (mail-IsWire, (address-IsWire, tt));
  authorities_fit = tt;
  additional_fit = tt;
  questions_count = omega arith;
  answers_count = omega arith;
  authorities_count = omega arith;
  additional_count = omega arith;
}

abbrev heard : DnsMessage
heard = record response { header = counted response }

short : take 4096 (Message.serialize response) ≡ Message.serialize response
unfolding Message.serialize counted Message.write_questions Message.write_records Header.serialize
    Question.serialize Record.serialize Rdata.serialize Name.to_wire Name.labels_to_wire
    Header.new_query
short = refl

-- Every server answers, at once.
abbrev helpful : Network Here
helpful = record {
  random_u16 = λ w. (7, w);
  random_usize = λ w. (5, w);
  instant = λ w. (0, w);
  seconds = λ w. (some 0, w);
  bind_udp = λ w. (true, w);
  send_udp = λ bytes addr w. (true, w);
  recv_udp = λ w. (datagram (Message.serialize response), w);
  connect_tcp = λ addr w. (false, w);
  write_tcp = λ bytes w. (false, w);
  read_tcp = λ n w. (none, w);
}

nothing_cached : IsUncached lru lenient false helpful www_ab RecordType.mx start
unfolding cache_lookup Cache.lookup perform ◌>>=◌ Cache.serve find Cache.new
nothing_cached = record { no_records = refl; no_alias = refl }

exchange :
    Exchange helpful false www_ab RecordType.mx root_servers
      (missed lru lenient false helpful www_ab RecordType.mx start)
      heard
unfolding counted Header.new_query
exchange = record {
  server = at_port_53 (record { octet0 = 192; octet1 = 5; octet2 = 5; octet3 = 241 });
  payload = Message.serialize response;
  read_until = length (Message.serialize response);
  picked = refl;
  bound = refl;
  sent = refl;
  arrived = refl;
  parsed = ap Message.parse short ∙ parse-sent response response-IsWire;
  same_id = refl;
  whole = refl;
}

mail-Answers : Answers lru lenient false helpful RecordType.mx heard mail []
unfolding is_name_error of_type RecordType.type_eq RecordType.discrete counted Header.new_query
mail-Answers = record { no_error = refl; of_the_type = refl }

abbrev then_world : Here
then_world =
    remembered lru lenient false helpful www_ab RecordType.mx (mail ∷ [])
      (validated lru lenient false helpful response (answered helpful exchange))

room : LruCache.cap lru (missed lru lenient false helpful www_ab RecordType.mx start).cache ≢ 0
unfolding cache_lookup Cache.lookup perform ◌>>=◌ Cache.serve find Cache.new RecordType.type_eq
    RecordType.discrete
room = λ p. cc

positive : 0 < min_ttl mail []
unfolding min_ttl
positive = omega arith

young : 0 < from_secs (smaller (min_ttl mail []) max_ttl)
unfolding min_ttl
young = omega arith

resolve-remembered_example :
    (resolve lru lenient false helpful 9 [] www_ab RecordType.mx start
      ≡ (done (mail ∷ []), then_world))
    × ((resolve lru lenient false helpful 9 [] www_ab RecordType.mx then_world).0
        ≡ done (
            map
              (with_ttl (
                left (lifetime lru lenient false helpful mail []) (
                  later_age lru lenient false helpful
                    (validated lru lenient false helpful response (answered helpful exchange))
                    then_world)))
              (mail ∷ [])))
resolve-remembered_example =
    resolve-remembered lru lenient false helpful 8 [] www_ab RecordType.mx start heard mail []
      exchange no_zone nothing_cached (λ w. cc) mail-Answers (λ w. refl) room positive young
