-- ===== src/Service/Launch.antt =====
-- `main` of src/main.rs, up to where it waits for `dns_server.run()`.
use rust_dns_server.Base.{Option, none, some, if◌then◌else◌}
use rust_dns_server.Text.{TextLib}
use rust_dns_server.Zone.{AddrLib}
use rust_dns_server.Cache.{CacheEntry, CacheKey}
use rust_dns_server.Cache.Lru.{LruCache}
use rust_dns_server.Resolver.Environment.{World}
use rust_dns_server.Server.Listeners
use rust_dns_server.Server.Listeners.{Sockets, binds}
use rust_dns_server.Doh.Listener
use rust_dns_server.Doh.Listener.{TlsLib, DohServer, tls_acceptor}
use rust_dns_server.Startup.{DohConfig, Config, Files, State, load_config, start}
use rust_dns_server.Service.{Running}

module _ (sockets : Sockets) (tls : TlsLib) where
  -- The task of `doh_server.run()`: it ends at once where the address cannot be bound.
  unfoldable pub listen : DohServer → Option (Option tls.Acceptor)
  listen server =
      if sockets.bind_tcp server.listen_addr then some (tls_acceptor tls server) else none

  unfoldable pub start_doh : Option DohConfig → Option (Option tls.Acceptor)
  start_doh none = none
  start_doh (some doh_config) =
      listen (Listener.new doh_config.listen_addr doh_config.tls_cert doh_config.tls_key)

  -- `none` is the error of `dns_server.run()`.
  unfoldable pub launch : {S : Type 0} → Config → S → Option (Running tls.Acceptor S)
  launch config world =
      if binds sockets (Listeners.new config.listen_addr)
      then some (record { world = world; doh = start_doh config.doh })
      else none

  -- With the zones and the flag that the resolver gets. `env` is all that is outside of the program.
  unfoldable pub main :
      ⦃t : TextLib⦄ ⦃addr : AddrLib⦄ (files : Files) (lru : LruCache CacheKey CacheEntry)
      {Env : Type 0} (env : Env)
      → Option (State lru × Running tls.Acceptor (World lru Env))
  main files lru env = elim (load_config files) [
    | none ↦ none
    | some config ↦ elim (start files lru) [
      | none ↦ none
      | some s ↦ elim (launch config (record { cache = s.cache; env = env })) [
        | none ↦ none
        | some running ↦ some (s, running)
      ]
    ]
  ]
