-- ===== src/Resolver/Safety/Sources.antt =====
-- `Resolver::resolve`: its sources one after the other, each with records that fit.
use mathlib.Core.List.{Memᴰ}
use rust_dns_server.Base.{
  Option-cases, ℕ, ◌≡◌, refl, inl, inr, Bool, not, ◌&&◌, Option, none, some, List, [], All,
  Bool-cases,
}
use rust_dns_server.Text.{TextLib}
use rust_dns_server.Name.{DnsName}
use rust_dns_server.Codes.RecordType.{RecordType, type_eq}
use rust_dns_server.Record.{DnsRecord}
use rust_dns_server.Cache.{CacheEntry, CacheKey}
use rust_dns_server.Cache.Lru.{LruCache}
use rust_dns_server.Dnssec.Ring.{Crypto}
use rust_dns_server.Zone.{Zone, zone_lookup, find_zone, store_lookup, has_name}
use rust_dns_server.Zone.Find.{find_zone-Memᴰ}
use rust_dns_server.Action.{Action}
use rust_dns_server.Action.Keeps.{Runs, Runs-pure, Runs-bind, Runs-if}
use rust_dns_server.Resolver.{
  ZoneResult, found, follow_cname, no_data, not_found, in_zone, zone_result, follow_cached,
  from_cache, from_zone, resolve,
}
use rust_dns_server.Resolver.Recursive.{resolve_recursive}
use rust_dns_server.Resolver.Environment.{World, Network}
use rust_dns_server.Resolver.Safety.{Hosts, AreAnswers, AreFound, cache_lookup-Gives}
use rust_dns_server.Resolver.Safety.Chain.{follow_cname_chain-Safe}
use rust_dns_server.Resolver.Safety.Recursive.{resolve_recursive-Safe}
use rust_dns_server.Resolver.Safety.Fits.{fitting-Answers}

module _ ⦃t : TextLib⦄ (lru : LruCache CacheKey CacheEntry) (crypto : Crypto) (enable_dnssec : Bool)
    {Env : Type 0} (net : Network (World lru Env)) where
  module _ {P : World lru Env → Type 0} {may_panic : Type 0}
      {Fits : RecordType → DnsRecord → Type 0} (hosts : Hosts lru net P may_panic Fits)
      (rounds : ℕ) where
    abbrev Answers : RecordType → List DnsRecord → Type 0
    Answers = AreAnswers lru net hosts

    abbrev Resolves : RecordType → Action (World lru Env) (List DnsRecord) → Type 0
    Resolves record_type = Runs P may_panic (Answers record_type)

    -- The answers of a zone fit the type that was asked for.
    abbrev pub ZoneFits : Zone → Type 0
    ZoneFits z =
        (name : DnsName) (record_type : RecordType) (rs : List DnsRecord)
        → zone_lookup z name record_type ≡ some rs
        → All (Fits record_type) rs

    inner :
        (depth_left : ℕ) (name : DnsName) (record_type : RecordType)
        → Resolves record_type
            (resolve_recursive lru crypto enable_dnssec net rounds depth_left name record_type)
    inner depth_left name record_type =
        resolve_recursive-Safe lru crypto enable_dnssec net hosts rounds depth_left name record_type

    follow_cached-Safe :
        (name : DnsName) (record_type : RecordType) (o : Option (List DnsRecord))
        → AreFound lru net hosts RecordType.cname o
        → Resolves record_type
            (follow_cached lru crypto enable_dnssec net rounds name record_type o)
    unfolding follow_cached
    follow_cached-Safe name record_type (some cnames) held =
        follow_cname_chain-Safe Fits _ (inner 32) cnames record_type (held cnames refl)
    follow_cached-Safe name record_type none held = inner 33 name record_type

    from_cache-Safe :
        (name : DnsName) (record_type : RecordType) (o : Option (List DnsRecord))
        → AreFound lru net hosts record_type o
        → Resolves record_type (from_cache lru crypto enable_dnssec net rounds name record_type o)
    unfolding from_cache
    from_cache-Safe name record_type (some rs) held =
        Runs-pure rs (fitting-Answers lru net hosts record_type rs (held rs refl))
    from_cache-Safe name record_type none held =
        Runs-if (type_eq record_type RecordType.cname) _ _ (λ _. inner 33 name record_type)
          (λ _.
            Runs-bind {Q = AreFound lru net hosts RecordType.cname} _ _
              (cache_lookup-Gives lru net hosts name RecordType.cname)
              λ o aliases. follow_cached-Safe name record_type o aliases)

    -- What the zones say.
    abbrev ResultFits : RecordType → ZoneResult → Type 0
    ResultFits record_type (found rs) = All (Fits record_type) rs
    ResultFits record_type (follow_cname cnames) = All (Fits RecordType.cname) cnames
    ResultFits record_type no_data = Unit
    ResultFits record_type not_found = Unit

    from_zone-Safe :
        (name : DnsName) (record_type : RecordType) (r : ZoneResult)
        → ResultFits record_type r
        → Resolves record_type (from_zone lru crypto enable_dnssec net rounds name record_type r)
    unfolding from_zone
    from_zone-Safe name record_type (found rs) h =
        Runs-pure rs (fitting-Answers lru net hosts record_type rs h)
    from_zone-Safe name record_type (follow_cname cnames) h =
        follow_cname_chain-Safe Fits _ (inner 32) cnames record_type h
    from_zone-Safe name record_type no_data h = Runs-pure [] tt
    from_zone-Safe name record_type not_found h =
        Runs-bind {Q = AreFound lru net hosts record_type} _ _
          (cache_lookup-Gives lru net hosts name record_type)
          λ o held. from_cache-Safe name record_type o held

    in_zone-Fits :
        (zone : Zone) (name : DnsName) (record_type : RecordType)
        → ZoneFits zone
        → ResultFits record_type (in_zone zone name record_type)
    unfolding in_zone
    in_zone-Fits zone name record_type fits =
        elim (Bool-cases (has_name zone name && not (type_eq record_type RecordType.cname))) [
          | inr outside ↦ rw outside tt
          | inl inside ↦ elim (Option-cases (zone_lookup zone name RecordType.cname)) [
            | inl e ↦ rw (inside, e) tt
            | inr (cnames, e) ↦ rw (inside, e) (fits name RecordType.cname cnames e)
          ]
        ]

    zone_result-Fits :
        (zones : List Zone) (name : DnsName) (record_type : RecordType)
        → ((z : Zone) → Memᴰ z zones → ZoneFits z)
        → ResultFits record_type (zone_result zones name record_type)
    unfolding zone_result store_lookup
    zone_result-Fits zones name record_type fits = elim (Option-cases (find_zone zones name)) [
      | inl e ↦ rw (zone_result, store_lookup, e, e) tt
      | inr (z, e) ↦
          let z_fits = fits z (find_zone-Memᴰ name zones z e) in
          elim (Option-cases (zone_lookup z name record_type)) [
            | inl missing ↦
                rw (zone_result, store_lookup, e, missing, e)
                  (in_zone-Fits z name record_type z_fits)
            | inr (rs, held) ↦
                rw (zone_result, store_lookup, e, held) (z_fits name record_type rs held)
          ]
    ]

    pub resolve-IsSafe :
        (zones : List Zone) (name : DnsName) (record_type : RecordType)
        → ((z : Zone) → Memᴰ z zones → ZoneFits z)
        → Resolves record_type (resolve lru crypto enable_dnssec net rounds zones name record_type)
    unfolding resolve
    resolve-IsSafe zones name record_type fits =
        from_zone-Safe name record_type (zone_result zones name record_type)
          (zone_result-Fits zones name record_type fits)
