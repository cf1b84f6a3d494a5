-- ===== src/Resolver/Chain.antt =====
-- `Resolver::follow_cname_chain` of src/resolver/mod.rs.
use rust_dns_server.Base.{ℕ, zero, suc, Option, none, some, List, [], ◌∷◌, ◌++◌}
use rust_dns_server.Name.{DnsName}
use rust_dns_server.Codes.RecordType.{RecordType}
use rust_dns_server.Codes.ResponseCode
use rust_dns_server.Rdata.{RData, cname}
use rust_dns_server.Record.{DnsRecord}
use rust_dns_server.Action.{Action, Attempt, success, error, pure, fail, attempt, ◌>>=◌}

abbrev pub max_cname_chain : ℕ
max_cname_chain = 16

-- The name that a record points at.
unfoldable pub target_of : RData → Option DnsName
target_of (cname name) = some name
target_of _ = none

-- `cnames.last()` and the match on its data.
unfoldable pub last_target : List DnsRecord → Option DnsName
last_target [] = none
last_target (r ∷ []) = target_of r.rdata
last_target (r ∷ r' ∷ rs) = last_target (r' ∷ rs)

-- The loop over `cname_records`: what is added to the chain, and the last target.
unfoldable pub extend_one :
    DnsRecord → Option DnsName → List DnsRecord × DnsName → List DnsRecord × DnsName
extend_one r none (chain, current) = (chain, current)
extend_one r (some name) (chain, current) = (chain ++ (r ∷ []), name)

unfoldable pub extend_chain : List DnsRecord → List DnsRecord × DnsName → List DnsRecord × DnsName
extend_chain [] so_far = so_far
extend_chain (r ∷ rs) so_far = extend_chain rs (extend_one r (target_of r.rdata) so_far)

-- `rec` is `resolve_recursive` at the next depth.
module _ {W : Type 0} (rec : DnsName → RecordType → Action W (List DnsRecord)) where
  -- One round for what the two inner calls answered; `next` is the round after it.
  unfoldable pub on_cnames :
      List DnsRecord
      → DnsName
      → (List DnsRecord × DnsName → Action W (List DnsRecord))
      → Attempt (List DnsRecord)
      → Action W (List DnsRecord)
  on_cnames chain current next (success cname_records) =
      next (extend_chain cname_records (chain, current))
  on_cnames chain current next (error code) = pure chain

  unfoldable pub on_target :
      List DnsRecord
      → DnsName
      → (List DnsRecord × DnsName → Action W (List DnsRecord))
      → List DnsRecord
      → Action W (List DnsRecord)
  on_target chain current next (r ∷ rs) = pure (chain ++ (r ∷ rs))
  on_target chain current next [] =
      attempt (rec current RecordType.cname) >>= on_cnames chain current next

  unfoldable pub chain_loop : ℕ → RecordType → List DnsRecord × DnsName → Action W (List DnsRecord)
  chain_loop zero target_type (chain, current) = pure chain
  chain_loop (suc rounds) target_type (chain, current) =
      rec current target_type >>= on_target chain current (chain_loop rounds target_type)

  unfoldable pub start_chain :
      List DnsRecord → RecordType → Option DnsName → Action W (List DnsRecord)
  start_chain cnames target_type none = fail ResponseCode.server_failure
  start_chain cnames target_type (some name) = chain_loop max_cname_chain target_type (cnames, name)

  unfoldable pub follow_cname_chain : List DnsRecord → RecordType → Action W (List DnsRecord)
  follow_cname_chain cnames target_type = start_chain cnames target_type (last_target cnames)
