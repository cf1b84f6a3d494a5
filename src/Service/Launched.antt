-- ===== src/Service/Launched.antt =====
-- The program from its start on: what holds of the cache and of every answer.
use mathlib.Core.Path.{subst, sym}
use rust_dns_server.Base.{
  ℕ, ◌≡◌, ◌⊎◌, inl, inr, Option, some, List, All, ap, Option-cases, some_eq, Bytes, Bool-cases,
}
use rust_dns_server.Text.{Text, TextLib}
use rust_dns_server.Name.{DnsName}
use rust_dns_server.Codes.RecordType.{RecordType}
use rust_dns_server.Record.{DnsRecord}
use rust_dns_server.Cache.{CacheEntry, CacheKey}
use rust_dns_server.Cache.Lru.{LruCache}
use rust_dns_server.Dnssec.Ring.{Crypto}
use rust_dns_server.Zone.{AddrLib}
use rust_dns_server.Action.{done}
use rust_dns_server.Resolver.{resolve}
use rust_dns_server.Resolver.Environment.{World, Network}
use rust_dns_server.Resolver.Safety.Resolve.{Undisturbed}
use rust_dns_server.Resolver.Safety.Types.{HasTypedCache, resolve-HasType, resolve-HasTypedCache}
use rust_dns_server.Server.Listeners.{Sockets, binds, new}
use rust_dns_server.Doh.Listener.{TlsLib}
use rust_dns_server.Startup.{Config, Files, State, load_config, start}
use rust_dns_server.Startup.Ready.{IsReady, start-IsReady}
use rust_dns_server.Service.{Task, Running, run_task}
use rust_dns_server.Service.Invariant.{run_task_keeps}
use rust_dns_server.Service.Launch.{launch, main}

module _ (sockets : Sockets) (tls : TlsLib) where
  launch-world :
      {S : Type 0} (config : Config) (world : S) (r : Running tls.Acceptor S)
      → launch sockets tls config world ≡ some r
      → r.world ≡ world
  unfolding launch
  launch-world config world r h = elim (Bool-cases (binds sockets (new config.listen_addr))) [
    | inr unbound ↦ absurd (cc (rw (launch, unbound) at h))
    | inl bound ↦ sym (ap (λ q. q.world) (some_eq (rw (launch, bound) at h)))
  ]

  module _ ⦃t : TextLib⦄ ⦃addr : AddrLib⦄ (files : Files) (lru : LruCache CacheKey CacheEntry)
      {Env : Type 0} (env : Env) where
    pub main-Starts :
        (s : State lru) (r : Running tls.Acceptor (World lru Env))
        → main sockets tls files lru env ≡ some (s, r)
        → IsReady files lru s × (r.world ≡ record { cache = s.cache; env = env })
    unfolding main
    main-Starts s r h = elim (Option-cases (load_config files)) [
      | inl missing ↦ absurd (cc (rw (main, missing) at h))
      | inr (config, loaded) ↦ elim (Option-cases (start files lru)) [
        | inl failed ↦ absurd (cc (rw (main, loaded, failed) at h))
        | inr (s', started) ↦
            let world : World lru Env = record { cache = s'.cache; env = env } in
            elim (Option-cases (launch sockets tls config world)) [
              | inl unbound ↦ absurd (cc (rw (main, loaded, started, unbound) at h))
              | inr (r', launched) ↦
                  subst
                    (λ (p : State lru × Running tls.Acceptor (World lru Env)).
                      IsReady files lru p.0 × (p.1.world ≡ record { cache = p.0.cache; env = env }))
                    (some_eq (rw (main, loaded, started, launched) at h))
                    (start-IsReady files lru s' started, launch-world config world r' launched)
            ]
      ]
    ]

    module _ (crypto : Crypto) (net : Network (World lru Env)) (decode : Text → Option Bytes)
        (rounds : ℕ) {Peer : Type 0} where
      -- Whatever the files of the program hold, the cache that it starts with is valid and holds records
      -- of their keys' types only. In a world with such a cache every task for a client, over UDP, TCP or
      -- HTTPS and whatever the client sends, leaves such a cache however it ends, and a resolution that
      -- succeeds returns records of the type that is asked for and aliases only. The other tasks that run
      -- while one waits keep such a cache.
      pub main-HasTypedCache :
          (s : State lru) (started : Running tls.Acceptor (World lru Env)) (w : World lru Env)
          (task : Task Peer)
          → main sockets tls files lru env ≡ some (s, started)
          → Undisturbed lru crypto s.enable_dnssec net
              (HasTypedCache lru crypto s.enable_dnssec net)
          → HasTypedCache lru crypto s.enable_dnssec net w
          → HasTypedCache lru crypto s.enable_dnssec net started.world
            × HasTypedCache lru crypto s.enable_dnssec net
                (run_task decode (resolve lru crypto s.enable_dnssec net rounds s.zones) task w).1
            × ((name : DnsName) (record_type : RecordType) (rs : List DnsRecord)
                → (resolve lru crypto s.enable_dnssec net rounds s.zones name record_type w).0
                  ≡ done rs
                → All
                    (λ (q : DnsRecord).
                      (q.record_type ≡ record_type) ⊎ (q.record_type ≡ RecordType.cname))
                    rs)
      main-HasTypedCache s started w task h u typed =
          let (ready, same_world) = main-Starts s started h in
          let flag = s.enable_dnssec in
          (
            rw same_world (ready.valid, ready.typed),
            run_task_keeps decode (resolve lru crypto flag net rounds s.zones)
                (HasTypedCache lru crypto flag net)
                (λ name record_type v g.
                  resolve-HasTypedCache lru crypto flag net rounds s.zones name record_type v u
                    ready.configured g)
                task w typed,
            λ name record_type rs e.
                resolve-HasType lru crypto flag net rounds s.zones name record_type w rs u
                  ready.configured typed e,
          )
