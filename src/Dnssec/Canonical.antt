-- ===== src/Dnssec/Canonical.antt =====
-- The canonical order of the records in `verify_rrsig` of src/dnssec/mod.rs.
use rust_dns_server.Base.{
  ℕ, ◌≡◌, ◌∙◌, refl, ap, inl, inr, Bool, true, false, List, [], ◌∷◌, arith, if◌then◌else◌,
  Bool-cases, Bytes,
}
use mathlib.Core.List.{
  Mem, Permᴰ, Perm, Pairwise, Pairwise-singleton, mem-cons_self, forall_mem-cons,
}
use mathlib.Core.List.Permᴰ
use mathlib.Core.Path.{ap₂}
use mathlib.Core.List
use mathlib.Core.Logic.{∥∥₁_elim}
use mathlib.Core.List.Perm
use rust_dns_server.Codes.RecordType.{RecordType, type_eq}
use rust_dns_server.Record.{DnsRecord}
use rust_dns_server.Dnssec.{
  bytes_le, insert_sorted, sort, of_type, canonical, canonical_all, Signature, signed_data,
}

-- No byte string is greater, in the order of `Vec<u8>`.
abbrev pub Le : Bytes → Bytes → Type 0
Le u v = bytes_le u v ≡ true

bytes_le_refl : (u : Bytes) → Le u u
unfolding bytes_le
bytes_le_refl [] = refl
bytes_le_refl (x ∷ u) = ground (arith, bytes_le_refl u)

bytes_le_total : (u v : Bytes) → bytes_le u v ≡ false → Le v u
unfolding bytes_le
bytes_le_total [] v h = absurd (cc)
bytes_le_total (x ∷ u) [] h = refl
bytes_le_total (x ∷ u) (y ∷ v) h = ground (arith, bytes_le_total u v)

bytes_le_antisymm : (u v : Bytes) → Le u v → Le v u → u ≡ v
unfolding bytes_le
bytes_le_antisymm [] [] h k = refl
bytes_le_antisymm [] (y ∷ v) h k = absurd (cc)
bytes_le_antisymm (x ∷ u) [] h k = absurd (cc)
bytes_le_antisymm (x ∷ u) (y ∷ v) h k = ground (arith, bytes_le_antisymm u v)

bytes_le_trans : (u v w : Bytes) → Le u v → Le v w → Le u w
unfolding bytes_le
bytes_le_trans [] v w h k = refl
bytes_le_trans (x ∷ u) [] w h k = absurd (cc)
bytes_le_trans (x ∷ u) (y ∷ v) [] h k = absurd (cc)
bytes_le_trans (x ∷ u) (y ∷ v) (z ∷ w) h k = ground (arith, bytes_le_trans u v w)

-- The position of one string does not depend on which of two is inserted first.
insert_comm :
    (u v : Bytes) (ws : List Bytes)
    → insert_sorted u (insert_sorted v ws) ≡ insert_sorted v (insert_sorted u ws)
unfolding insert_sorted
insert_comm u v [] = ground (arith, bytes_le_total u v, bytes_le_total v u, bytes_le_antisymm u v)
insert_comm u v (w ∷ ws) = ground (
  arith,
  bytes_le_total u v,
  bytes_le_total v u,
  bytes_le_antisymm u v,
  bytes_le_trans u v w,
  bytes_le_trans v u w,
  insert_comm u v ws,
)

sort_eq : {us vs : List Bytes} → Permᴰ us vs → sort us ≡ sort vs
unfolding sort
sort_eq Permᴰ.nil = refl
sort_eq (Permᴰ.cons e p) = ap₂ insert_sorted e (sort_eq p)
sort_eq (Permᴰ.swap {a} {b} {a'} {b'} {l} e f) = rw (e, f) (insert_comm b' a' (sort l))
sort_eq (Permᴰ.trans p q) = sort_eq p ∙ sort_eq q

keep_cons :
    (b : Bool) {r q : DnsRecord} {rs qs : List DnsRecord}
    → r ≡ q
    → Permᴰ rs qs
    → Permᴰ (if b then r ∷ rs else rs) (if b then q ∷ qs else qs)
keep_cons true e p = Permᴰ.cons e p
keep_cons false e p = p

keep_swap :
    (b c : Bool) (r q : DnsRecord) (rs : List DnsRecord)
    → Permᴰ
        (if b then r ∷ (if c then q ∷ rs else rs) else (if c then q ∷ rs else rs))
        (if c then q ∷ (if b then r ∷ rs else rs) else (if b then r ∷ rs else rs))
keep_swap true true r q rs = Permᴰ.swap refl refl
keep_swap true false r q rs = Permᴰ.refl (r ∷ rs)
keep_swap false true r q rs = Permᴰ.refl (q ∷ rs)
keep_swap false false r q rs = Permᴰ.refl rs

pub of_type_perm :
    (t : RecordType) {rs qs : List DnsRecord} → Permᴰ rs qs → Permᴰ (of_type t rs) (of_type t qs)
unfolding of_type
of_type_perm t Permᴰ.nil = Permᴰ.nil
of_type_perm t (Permᴰ.cons {b} e p) =
    rw e (keep_cons (type_eq b.record_type t) refl (of_type_perm t p))
of_type_perm t (Permᴰ.swap {a'} {b'} {l} e f) =
    rw (e, f) (keep_swap (type_eq b'.record_type t) (type_eq a'.record_type t) b' a' (of_type t l))
of_type_perm t (Permᴰ.trans p q) = Permᴰ.trans (of_type_perm t p) (of_type_perm t q)

canonical_all_perm :
    (ttl : ℕ) {rs qs : List DnsRecord}
    → Permᴰ rs qs
    → Permᴰ (canonical_all ttl rs) (canonical_all ttl qs)
unfolding canonical_all
canonical_all_perm ttl Permᴰ.nil = Permᴰ.nil
canonical_all_perm ttl (Permᴰ.cons e p) =
    Permᴰ.cons (ap (canonical ttl) e) (canonical_all_perm ttl p)
canonical_all_perm ttl (Permᴰ.swap e f) = Permᴰ.swap (ap (canonical ttl) e) (ap (canonical ttl) f)
canonical_all_perm ttl (Permᴰ.trans p q) =
    Permᴰ.trans (canonical_all_perm ttl p) (canonical_all_perm ttl q)

pub signed_data_eq :
    (s : Signature) {rs qs : List DnsRecord} → Permᴰ rs qs → signed_data s rs ≡ signed_data s qs
unfolding signed_data
signed_data_eq s p =
    rw (sort_eq (canonical_all_perm s.original_ttl (of_type_perm s.type_covered p)))

abbrev pub IsSorted : List Bytes → Type 0
IsSorted = Pairwise Le

insert_perm : (u : Bytes) (ws : List Bytes) → Permᴰ (insert_sorted u ws) (u ∷ ws)
unfolding insert_sorted
insert_perm u [] = Permᴰ.refl (u ∷ [])
insert_perm u (w ∷ ws) = elim (Bool-cases (bytes_le u w)) [
  | inl le ↦ rw le (Permᴰ.refl (u ∷ w ∷ ws))
  | inr gt ↦ rw gt (Permᴰ.trans (Permᴰ.cons refl (insert_perm u ws)) (Permᴰ.swap refl refl))
]

sort_perm : (ws : List Bytes) → Permᴰ (sort ws) ws
unfolding sort
sort_perm [] = Permᴰ.nil
sort_perm (w ∷ ws) = Permᴰ.trans (insert_perm w (sort ws)) (Permᴰ.cons refl (sort_perm ws))

Le_prop : (u v : Bytes) → IsProp (Le u v)
Le_prop u v = hlevel

below_cons :
    (u w : Bytes) (ws : List Bytes)
    → Le u w
    → ((v : Bytes) → Mem v ws → Le u v)
    → (v : Bytes) → Mem v (w ∷ ws)
    → Le u v
below_cons u w ws le h = (forall_mem-cons (Le_prop u)).1 (le, h)

insert-IsSorted : (u : Bytes) {ws : List Bytes} → IsSorted ws → IsSorted (insert_sorted u ws)
unfolding insert_sorted
insert-IsSorted u Pairwise.nil = Pairwise-singleton _ u
insert-IsSorted u (Pairwise.cons {a = w} {l = ws} h s) = elim (Bool-cases (bytes_le u w)) [
  | inl le ↦ rw le (
      Pairwise.cons (below_cons u w ws le (λ v m. bytes_le_trans u w v le (h v m)))
        (Pairwise.cons h s))
  | inr gt ↦ rw gt (
      Pairwise.cons
        (λ v m.
          below_cons w u ws (bytes_le_total u w gt) h v ((Perm.mem_iff ∣ insert_perm u ws ∣₁).0 m))
        (insert-IsSorted u s))
]

sort-IsSorted : (ws : List Bytes) → IsSorted (sort ws)
unfolding sort
sort-IsSorted [] = Pairwise.nil
sort-IsSorted (w ∷ ws) = insert-IsSorted w (sort-IsSorted ws)

insert_least :
    (w : Bytes) (ws : List Bytes) → ((v : Bytes) → Mem v ws → Le w v) → insert_sorted w ws ≡ w ∷ ws
unfolding insert_sorted
insert_least w [] h = refl
insert_least w (v ∷ ws) h = rw (h v mem-cons_self) refl

sort_fixed : {ws : List Bytes} → IsSorted ws → sort ws ≡ ws
unfolding sort
sort_fixed Pairwise.nil = refl
sort_fixed (Pairwise.cons {a = w} {l = ws} h s) = rw (sort_fixed s) (insert_least w ws h)

-- A sorted arrangement of the strings is the one that `sort` returns: there is no other.
pub sort_unique : (ws vs : List Bytes) → Perm ws vs → IsSorted vs → sort ws ≡ vs
sort_unique ws vs p s =
    ∥∥₁_elim p (List.is_set (List.is_set hlevel) (sort ws) vs) (λ d. sort_eq d ∙ sort_fixed s)
