-- ===== src/Lib.antt =====
-- A model of the Rust DNS server: its wire format, its cache, its zones, its resolver, its front ends over
-- UDP, TCP and HTTPS, and its DNSSEC validator.
--
-- The program. A query arrives over UDP or TCP (src/server/mod.rs), is parsed (src/dns), and its first
-- question goes to the resolver (src/resolver/mod.rs), which asks the zones, the cache
-- (src/cache/mod.rs) and then other servers, and has their answers validated (src/dnssec/mod.rs). The
-- reply is serialized (src/dns) and sent. DNS over HTTPS (src/doh/mod.rs) does the same for a message
-- in an HTTP request. The model follows the same order: Server and Doh call Message, which calls
-- Header, Question and Record, which call Name and Rdata; and they take a resolver as a parameter,
-- for which Server/Local puts `resolve` of Resolver, which calls Zone, Cache, Dnssec and Message.
--
-- Which file models what.
--   Base     lists, bytes and Boolean tests over the native numbers; `At bytes o xs` says that `xs`
--            stand in `bytes` at offset `o`.
--   Text     Rust's `String` as its UTF-8 bytes, with the standard library's Unicode functions as an
--            instance argument `TextLib`: what they do is assumed on ASCII text only.
--   Error    `DnsError` of src/dns/error.rs.
--   Reader   the `&mut usize` offset of the parsers. An outcome is a value, an error, a panic (an index
--            or a slice out of range), or `stuck`, which is the model's own: out of fuel. A value and
--            an error carry the offset, since the code leaves it changed after an error too.
--   Name     `DnsName` of src/dns/name.rs. Name/Safety: any buffer; Name/Wire: the wire format;
--            Name/New: construction from text.
--   Codes    the numeric codes of src/dns/header.rs, src/dns/rdata.rs and src/dns/record.rs.
--   Header   `DnsHeader` of src/dns/header.rs; the bytes of the flags in Header/Flags.
--   Rdata    `RData` of src/dns/rdata.rs, one function for each arm of `RData::parse` in Rdata/Parse.
--            Rdata/Print is its `Display`; Rdata/Pieces is about texts longer than one length byte.
--   Question, Record, Message    src/dns/question.rs, src/dns/record.rs, src/dns/message.rs.
--   Cache    `DnsCache` of src/cache/mod.rs over Cache/Lru, the interface to the crate `lru`, which
--            Cache/ListLru shows to be possible. The clock is an argument in nanoseconds, once for
--            each time that the code reads it. Its lock makes each operation one step.
--   Zone     `Zone` and `ZoneStore` of src/zone/mod.rs. A `HashMap` is the list of its entries. The
--            address parsers of the standard library are an instance argument `AddrLib`.
--   Action   what an operation of the resolver does: it changes the world, and ends with a value, a
--            response code, a panic, or `unfinished`, which is the model's own: out of rounds.
--   Resolver `Resolver` of src/resolver/mod.rs: Resolver/Query asks name servers over UDP and TCP,
--            Resolver/Chain follows CNAME records, Resolver/Recursive follows referrals from the root.
--            Sockets, clocks and random numbers are the fields of `Network`; each of them may change
--            the world and the cache in it, since other tasks run while this one waits.
--            Resolver/Safety has what every outcome keeps, and Resolver/Safety/Waits what
--            other tasks find on the way; Resolver/Found and Resolver/Remember what a
--            root server's answer leads to, Resolver/Silence and Server/Unanswered what happens without
--            one, Server/Denied what a name error leads to, Resolver/Aliases chains of CNAME
--            records that root servers answer with, and Resolver/Endless a loop that never ends.
--   Server   `DnsServer` of src/server/mod.rs over any resolver that reads and changes a state.
--   Doh      `DohServer` of src/doh/mod.rs over any resolver, from the request as the handlers read it
--            to the response; the base64 decoder is a parameter.
--   Dnssec   `DnssecValidator` of src/dnssec/mod.rs; Dnssec/Ring has the checks in front of the crate
--            `ring`, whose functions are the fields of `Crypto`.
--            The system clock is a parameter, which each check of a signature reads, and which may
--            stand before the epoch: then `unwrap` panics, in Dnssec/Clock.
--            Dnssec/Canonical, Dnssec/Steady and Dnssec/Arrangement are about the order of the records.
--   Startup  the configuration and the state that src/main.rs starts the servers with; the file system and
--            the TOML parser are the fields of `Files`.
--   Service  the tasks that `DnsServer::run` and `DohServer::run` start for their clients, on the state
--            that they share; Service/Launch is the end of `main`. Each task is a function of the state:
--            what other tasks do to it while one waits is in the operations of `Network`. In what order
--            the scheduler runs the tasks is not modelled. Server/Listeners and Doh/Listener have what
--            the loops that accept clients compute; sockets, files and TLS are parameters there.
--   Tests    runs of the model, and the theorems at concrete inputs.
--
-- Integers. Bytes and words are native natural numbers. `as u8`, `as u16`, `as u32` and the sums on
-- u32 are written as remainders, so they wrap around as a release build does.
--
-- Fuel. `DnsName::parse` makes at most 128 jumps, and between two jumps each round moves forward, so
-- one round more than the buffer has bytes is enough for each stretch. The TXT loop takes a byte at
-- least in each round, and gets one round more than the buffer has bytes. `write_chunks` gets a round
-- for each byte. `resolve_recursive` calls itself to a depth of 32, which is 33 calls, as the code
-- counts them. Its loop over referrals has no bound in the code: the model takes the number of rounds
-- as an argument, and says nothing more where they run out.
--
-- Not modelled: how the tasks of several clients are interleaved, what sockets, TLS and the HTTP crates
-- do, the short form in which the standard library prints an IPv6 address, and logging. `Debug`,
-- `Clone` and `From<io::Error>` are glue, and src/dns/mod.rs has re-exports only.
pub mod Base
pub mod Text
pub mod Error
pub mod Reader
pub mod Name
pub mod Codes
pub mod Header
pub mod Rdata
pub mod Question
pub mod Record
pub mod Message
pub mod Cache
pub mod Action
pub mod Server
pub mod Zone
pub mod Resolver
pub mod Dnssec
pub mod Doh
pub mod Startup
pub mod Service
pub mod Tests
