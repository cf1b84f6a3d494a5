-- ===== src/Tests/Aliases.antt =====
-- Networks in which the servers answer with aliases: one that leads to a record, and one that leads back
-- to its own name.
use rust_dns_server.Base.{
  ℕ, zero, suc, ◌≡◌, refl, ap, ◌∙◌, arith, Bool, true, false, none, some, List, [], ◌∷◌, length,
  take, if◌then◌else◌,
}
use rust_dns_server.Text.{ascii_text}
use rust_dns_server.Name
use rust_dns_server.Codes.OpCode
use rust_dns_server.Codes.RecordType
use rust_dns_server.Codes.RecordClass
use rust_dns_server.Codes.ResponseCode
use rust_dns_server.Header
use rust_dns_server.Rdata
use rust_dns_server.Record
use rust_dns_server.Record.{DnsRecord}
use rust_dns_server.Question
use rust_dns_server.Message
use rust_dns_server.Message.{DnsMessage, counted}
use rust_dns_server.Cache
use rust_dns_server.Cache.ListLru.{find}
use rust_dns_server.Dnssec.{of_type}
use rust_dns_server.Action.{done, perform, ◌>>=◌}
use rust_dns_server.Server.Answers.{parse-sent}
use rust_dns_server.Resolver.{resolve}
use rust_dns_server.Resolver.Environment.{World, Network, datagram, cache_lookup}
use rust_dns_server.Resolver.Chain.{target_of}
use rust_dns_server.Resolver.Recursive.{root_servers, is_name_error, at_port_53, cnames_of}
use rust_dns_server.Resolver.Uncached.{IsUncached, missed}
use rust_dns_server.Resolver.Found.{Exchange, answered}
use rust_dns_server.Resolver.Remember.{Answers, validated, remembered}
use rust_dns_server.Resolver.Aliases.{Redirects, redirected, stays, goes_on}
use rust_dns_server.Resolver.Aliases.Follow.{resolve-Aliased}
use rust_dns_server.Tests.Data.{www_ab, question, mail}
use rust_dns_server.Tests.Messages.{www_ab-IsWire, mail-IsWire, question-IsWire}
use rust_dns_server.Tests.Validators.{lenient}
use rust_dns_server.Tests.Resolvers.{lru, no_zone}

-- A name that is an alias of itself.
abbrev alias : DnsRecord
alias = record {
  name = www_ab;
  record_type = RecordType.cname;
  record_class = RecordClass.in_class;
  ttl = 60;
  rdata = Rdata.cname www_ab;
}

alias-IsWire : Record.Wire.IsWire alias
unfolding RecordType.to_u16 RecordType.from_u16 RecordClass.to_u16 RecordClass.from_u16
    Rdata.serialize Name.to_wire Name.labels_to_wire
alias-IsWire = record {
  name_fits = www_ab-IsWire;
  type_fits = omega arith;
  type_known = refl;
  class_fits = omega arith;
  class_known = refl;
  ttl_fits = omega arith;
  rdata_fits = www_ab-IsWire;
  rdata_short = omega arith;
}

abbrev response : DnsRecord → DnsMessage
response r = record {
  header = record (Header.new_query 7) { is_response = true };
  questions = question ∷ [];
  answers = r ∷ [];
  authorities = [];
  additional = [];
}

response-IsWire : (r : DnsRecord) → Record.Wire.IsWire r → Message.Wire.IsWire (response r)
unfolding OpCode.to_u8 OpCode.from_u8 ResponseCode.to_u8 ResponseCode.from_u8 Header.new_query
response-IsWire r v = record {
  id_fits = omega arith;
  opcode_fits = omega arith;
  opcode_known = refl;
  code_fits = omega arith;
  code_known = refl;
  questions_fit = (question-IsWire, tt);
  answers_fit = (v, tt);
  authorities_fit = tt;
  additional_fit = tt;
  questions_count = omega arith;
  answers_count = omega arith;
  authorities_count = omega arith;
  additional_count = omega arith;
}

abbrev heard : DnsRecord → DnsMessage
heard r = record (response r) { header = counted (response r) }

writes : Unit {0}
unfolding Message.serialize counted Message.write_questions Message.write_records Header.serialize
    Question.serialize Record.serialize Rdata.serialize Name.to_wire Name.labels_to_wire
    Header.new_query
writes = tt

alias_short : take 4096 (Message.serialize (response alias)) ≡ Message.serialize (response alias)
unfolding writes
alias_short = refl

mail_short : take 4096 (Message.serialize (response mail)) ≡ Message.serialize (response mail)
unfolding writes
mail_short = refl

-- Whether the servers answer with the alias.
abbrev Switch : Type 0
Switch = World lru Bool

-- Every server answers with the alias, as long as it is switched on, and else with the record. After an
-- answer it is on if `still`.
abbrev switched : Bool → Network Switch
switched still = record {
  random_u16 = λ w. (7, w);
  random_usize = λ w. (5, w);
  instant = λ w. (0, w);
  seconds = λ w. (some 0, w);
  bind_udp = λ w. (true, w);
  send_udp = λ bytes addr w. (true, w);
  recv_udp = λ w. (
    datagram (Message.serialize (if w.env then response alias else response mail)),
    record w { env = still },
  );
  connect_tcp = λ addr w. (false, w);
  write_tcp = λ bytes w. (false, w);
  read_tcp = λ n w. (none, w);
}

abbrev on : Switch
on = record { cache = Cache.new lru 4; env = true }

module _ (still : Bool) where
  nothing_cached : IsUncached lru lenient false (switched still) www_ab RecordType.mx on
  unfolding cache_lookup Cache.lookup perform ◌>>=◌ Cache.serve find Cache.new
  nothing_cached = record { no_records = refl; no_alias = refl }

  alias_exchange :
      (w : Switch)
      → w.env ≡ true
      → Exchange (switched still) false www_ab RecordType.mx root_servers w (heard alias)
  unfolding counted Header.new_query
  alias_exchange w e = record {
    server = at_port_53 (record { octet0 = 192; octet1 = 5; octet2 = 5; octet3 = 241 });
    payload = Message.serialize (response alias);
    read_until = length (Message.serialize (response alias));
    picked = refl;
    bound = refl;
    sent = refl;
    arrived = rw e refl;
    parsed =
        ap Message.parse alias_short
        ∙ parse-sent (response alias) (response-IsWire alias alias-IsWire);
    same_id = refl;
    whole = refl;
  }

  mail_exchange :
      (w : Switch)
      → w.env ≡ false
      → Exchange (switched still) false www_ab RecordType.mx root_servers w (heard mail)
  unfolding counted Header.new_query
  mail_exchange w e = record {
    server = at_port_53 (record { octet0 = 192; octet1 = 5; octet2 = 5; octet3 = 241 });
    payload = Message.serialize (response mail);
    read_until = length (Message.serialize (response mail));
    picked = refl;
    bound = refl;
    sent = refl;
    arrived = rw e refl;
    parsed =
        ap Message.parse mail_short ∙ parse-sent (response mail) (response-IsWire mail mail-IsWire);
    same_id = refl;
    whole = refl;
  }

  redirects : Redirects lru lenient false (switched still) RecordType.mx (heard alias) alias www_ab
  unfolding is_name_error of_type cnames_of target_of RecordType.type_eq RecordType.discrete counted
      Header.new_query
  redirects = record { no_error = refl; none_of_the_type = refl; one_alias = refl; leads = refl }

  is_on : (missed lru lenient false (switched still) www_ab RecordType.mx on).env ≡ true
  unfolding cache_lookup Cache.lookup perform ◌>>=◌ Cache.serve find Cache.new RecordType.type_eq
      RecordType.discrete
  is_on = refl

-- The alias, and then the record.
abbrev asked : Switch
asked = missed lru lenient false (switched false) www_ab RecordType.mx on

abbrev off : Switch
off =
    redirected lru lenient false (switched false) RecordType.mx www_ab alias (heard alias)
      (answered (switched false) (alias_exchange false asked (is_on false)))

mail-Answers : Answers lru lenient false (switched false) RecordType.mx (heard mail) mail []
unfolding is_name_error of_type RecordType.type_eq RecordType.discrete counted Header.new_query
mail-Answers = record { no_error = refl; of_the_type = refl }

resolve-Aliased_example :
    resolve lru lenient false (switched false) 9 [] www_ab RecordType.mx on ≡ (
      done (alias ∷ mail ∷ []),
      remembered lru lenient false (switched false) www_ab RecordType.mx (mail ∷ []) (
          validated lru lenient false
            (switched false)
            (heard mail)
            (answered (switched false) (mail_exchange false off refl))),
    )
resolve-Aliased_example =
    resolve-Aliased lru lenient false (switched false) RecordType.mx 8 [] www_ab www_ab on off
      (alias ∷ []) (heard mail) mail [] (mail_exchange false off refl) no_zone
      (nothing_cached false) (λ w. cc)
      (goes_on (heard alias) (alias_exchange false asked (is_on false)) (redirects false)
        (stays www_ab off))
      (omega arith) mail-Answers

-- The alias again and again.
abbrev circle : ℕ → List DnsRecord
circle zero = []
circle (suc n) = alias ∷ circle n

abbrev asked_again : Switch
asked_again = missed lru lenient false (switched true) www_ab RecordType.mx on
