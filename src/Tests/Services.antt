-- ===== src/Tests/Services.antt =====
-- The start of the program, and a task for a client.
use rust_dns_server.Base.{ℕ, ◌≡◌, ◌⊎◌, refl, true, none, some, List, [], All}
use rust_dns_server.Text.{ascii_text}
use rust_dns_server.Name.{DnsName}
use rust_dns_server.Codes.RecordType.{RecordType}
use rust_dns_server.Record.{DnsRecord}
use rust_dns_server.Message
use rust_dns_server.Action.{Action, done}
use rust_dns_server.Resolver.{resolve}
use rust_dns_server.Resolver.Safety.Types.{HasTypedCache}
use rust_dns_server.Server.Listeners.{Sockets, binds, new, received}
use rust_dns_server.Doh.Listener.{TlsLib}
use rust_dns_server.Startup.{load_first, load_config, config_paths}
use rust_dns_server.Startup.Ready.{start-IsReady}
use rust_dns_server.Service.{Task, udp_query, Running, run_task}
use rust_dns_server.Service.Launch.{start_doh, launch, main}
use rust_dns_server.Service.Launched.{main-HasTypedCache}
use rust_dns_server.Tests.Data.{message}
use rust_dns_server.Tests.Zones.{no_addresses}
use rust_dns_server.Tests.Validators.{lenient}
use rust_dns_server.Tests.Resolvers.{Here, silent, typed_undisturbed}
use rust_dns_server.Tests.Starts.{lru, files, config, ready, starts}

abbrev sockets : Sockets
sockets = record { bind_udp = λ address. true; bind_tcp = λ address. true }

-- No certificate can be read.
abbrev no_tls : TlsLib
no_tls = record {
  Certificate = ℕ;
  Key = ℕ;
  Acceptor = ℕ;
  open_file = λ path. none;
  certs = λ content. [];
  private_key = λ content. none;
  with_single_cert = λ chain key. none;
}

abbrev launched : Running ℕ Here
launched = record { world = record { cache = ready.cache; env = tt }; doh = none }

loads_config : load_config files ≡ some config
unfolding load_config load_first config_paths
loads_config = refl

main_run : main sockets no_tls files lru tt ≡ some (ready, launched)
unfolding main launch binds new start_doh
main_run = rw (main, loads_config, starts) refl

abbrev zoned : DnsName → RecordType → Action Here (List DnsRecord)
zoned = resolve lru lenient true silent 9 ready.zones

-- A client that sends a query.
abbrev client : Task ℕ
client = udp_query (received (Message.serialize message)) 1

launched-HasTypedCache : HasTypedCache lru lenient true silent launched.world
launched-HasTypedCache =
    let is_ready = start-IsReady files lru ready starts in (is_ready.valid, is_ready.typed)

main-HasTypedCache_example :
    HasTypedCache lru lenient true silent launched.world
    × HasTypedCache lru lenient true silent (run_task (λ param. none) zoned client launched.world).1
    × ((name : DnsName) (record_type : RecordType) (rs : List DnsRecord)
        → (zoned name record_type launched.world).0 ≡ done rs
        → All
            (λ (q : DnsRecord). (q.record_type ≡ record_type) ⊎ (q.record_type ≡ RecordType.cname))
            rs)
main-HasTypedCache_example =
    main-HasTypedCache sockets no_tls files lru tt lenient silent (λ param. none) 9 ready launched
      launched.world client main_run typed_undisturbed launched-HasTypedCache
