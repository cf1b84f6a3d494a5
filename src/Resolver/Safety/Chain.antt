-- ===== src/Resolver/Safety/Chain.antt =====
-- `follow_cname_chain` keeps what the inner resolution keeps, and returns aliases and what that returns.
use rust_dns_server.Base.{
  ℕ, zero, suc, ◌⊎◌, inl, inr, Option, none, some, List, [], ◌∷◌, All, All-append,
}
use rust_dns_server.Name.{DnsName}
use rust_dns_server.Codes.RecordType.{RecordType}
use rust_dns_server.Record.{DnsRecord}
use rust_dns_server.Action.{Action, Attempt, success, error}
use rust_dns_server.Action.Keeps.{Runs, Runs-pure, Runs-fail, Runs-bind, Runs-attempt, Succeeds}
use rust_dns_server.Resolver.Chain.{
  target_of, extend_one, extend_chain, last_target, on_cnames, on_target, chain_loop, start_chain,
  max_cname_chain, follow_cname_chain,
}

module _ (Fits : RecordType → DnsRecord → Type 0) where
  abbrev Answers : RecordType → List DnsRecord → Type 0
  Answers record_type = All (λ (r : DnsRecord). Fits record_type r ⊎ Fits RecordType.cname r)

  extend_one-Answers :
      (target_type : RecordType) (r : DnsRecord) (o : Option DnsName)
      (so_far : List DnsRecord × DnsName)
      → Fits RecordType.cname r
      → Answers target_type so_far.0
      → Answers target_type (extend_one r o so_far).0
  unfolding extend_one
  extend_one-Answers target_type r none so_far h k = k
  extend_one-Answers target_type r (some name) so_far h k =
      All-append _ so_far.0 (r ∷ []) k (inr h, tt)

  only_alias :
      (r : DnsRecord)
      → (Fits RecordType.cname r ⊎ Fits RecordType.cname r)
      → Fits RecordType.cname r
  only_alias r (inl h) = h
  only_alias r (inr h) = h

  extend_chain-Answers :
      (target_type : RecordType) (rs : List DnsRecord) (so_far : List DnsRecord × DnsName)
      → Answers RecordType.cname rs
      → Answers target_type so_far.0
      → Answers target_type (extend_chain rs so_far).0
  unfolding extend_chain
  extend_chain-Answers target_type [] so_far h k = k
  extend_chain-Answers target_type (r ∷ rs) so_far h k =
      extend_chain-Answers target_type rs _ h.1
        (extend_one-Answers target_type r (target_of r.rdata) so_far (only_alias r h.0) k)

  aliases-Answers :
      (target_type : RecordType) (rs : List DnsRecord)
      → All (Fits RecordType.cname) rs
      → Answers target_type rs
  aliases-Answers target_type [] h = tt
  aliases-Answers target_type (r ∷ rs) h = (inr h.0, aliases-Answers target_type rs h.1)

  module _ {W : Type 0} {P : W → Type 0} {may_panic : Type 0}
      (rec : DnsName → RecordType → Action W (List DnsRecord))
      (inner : (name : DnsName) (record_type : RecordType)
        → Runs P may_panic (Answers record_type) (rec name record_type)) where
    -- What the rounds after this one do.
    abbrev Goes : RecordType → (List DnsRecord × DnsName → Action W (List DnsRecord)) → Type 0
    Goes target_type next =
        (so_far : List DnsRecord × DnsName)
        → Answers target_type so_far.0
        → Runs P may_panic (Answers target_type) (next so_far)

    on_cnames-Safe :
        (target_type : RecordType) (chain : List DnsRecord) (current : DnsName)
        (next : List DnsRecord × DnsName → Action W (List DnsRecord)) (r : Attempt (List DnsRecord))
        → Answers target_type chain
        → Succeeds (Answers RecordType.cname) r
        → Goes target_type next
        → Runs P may_panic (Answers target_type) (on_cnames rec chain current next r)
    unfolding on_cnames
    on_cnames-Safe target_type chain current next (success rs) h q k =
        k _ (extend_chain-Answers target_type rs (chain, current) q h)
    on_cnames-Safe target_type chain current next (error code) h q k = Runs-pure chain h

    on_target-Safe :
        (target_type : RecordType) (chain : List DnsRecord) (current : DnsName)
        (next : List DnsRecord × DnsName → Action W (List DnsRecord)) (rs : List DnsRecord)
        → Answers target_type chain
        → Answers target_type rs
        → Goes target_type next
        → Runs P may_panic (Answers target_type) (on_target rec chain current next rs)
    unfolding on_target
    on_target-Safe target_type chain current next (r ∷ rs) h q k =
        Runs-pure _ (All-append _ chain (r ∷ rs) h q)
    on_target-Safe target_type chain current next [] h q k =
        Runs-bind {Q = Succeeds (Answers RecordType.cname)} _ _
          (Runs-attempt _ (inner current RecordType.cname))
          λ r found. on_cnames-Safe target_type chain current next r h found k

    chain_loop-Safe :
        (rounds : ℕ) (target_type : RecordType)
        → Goes target_type (chain_loop rec rounds target_type)
    unfolding chain_loop
    chain_loop-Safe zero target_type (chain, current) h = Runs-pure chain h
    chain_loop-Safe (suc rounds) target_type (chain, current) h =
        Runs-bind {Q = Answers target_type} _ _ (inner current target_type) λ rs found.
          on_target-Safe target_type chain current _ rs h found (chain_loop-Safe rounds target_type)

    start_chain-Safe :
        (cnames : List DnsRecord) (target_type : RecordType) (target : Option DnsName)
        → Answers target_type cnames
        → Runs P may_panic (Answers target_type) (start_chain rec cnames target_type target)
    unfolding start_chain
    start_chain-Safe cnames target_type none h = Runs-fail _
    start_chain-Safe cnames target_type (some name) h =
        chain_loop-Safe max_cname_chain target_type (cnames, name) h

    pub follow_cname_chain-Safe :
        (cnames : List DnsRecord) (target_type : RecordType)
        → All (Fits RecordType.cname) cnames
        → Runs P may_panic (Answers target_type) (follow_cname_chain rec cnames target_type)
    unfolding follow_cname_chain
    follow_cname_chain-Safe cnames target_type h =
        start_chain-Safe cnames target_type (last_target cnames)
          (aliases-Answers target_type cnames h)
