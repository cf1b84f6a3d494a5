-- ===== src/Name/Equal.antt =====
-- The derived `==` on names decides equality, and what `DnsName::is_subdomain_of` decides.
use rust_dns_server.Base.{
  drop-append, ◌+◌, ◌-◌, ◌≡◌, ◌↔◌, refl, sym, ap, ◌∙◌, Bool, true, ◌&&◌, List, [], ◌∷◌, ◌++◌, arith,
  length, drop, take, take-drop_append, ltb, ==_iff, Bool-cases, inl, inr, le→ltb_false,
  length-append,
}
use rust_dns_server.Text.{Text}
use rust_dns_server.Name.{DnsName, text_eq, labels_eq, name_eq, label_count, is_subdomain_of}

and_intro : (a b : Bool) → a ≡ true → b ≡ true → (a && b) ≡ true
and_intro a b h k = ground arith

pub text_eq_iff : (s t : Text) → (text_eq s t ≡ true) ↔ (s ≡ t)
unfolding text_eq
text_eq_iff [] [] = (λ h. refl, λ e. refl)
text_eq_iff [] (b ∷ t) = (λ h. absurd (cc), λ e. absurd (cc))
text_eq_iff (a ∷ s) [] = (λ h. absurd (cc), λ e. absurd (cc))
text_eq_iff (a ∷ s) (b ∷ t) = ground (arith, ==_iff a b, text_eq_iff s t)

pub labels_eq_iff : (ss ts : List Text) → (labels_eq ss ts ≡ true) ↔ (ss ≡ ts)
unfolding labels_eq
labels_eq_iff [] [] = (λ h. refl, λ e. refl)
labels_eq_iff [] (t ∷ ts) = (λ h. absurd (cc), λ e. absurd (cc))
labels_eq_iff (s ∷ ss) [] = (λ h. absurd (cc), λ e. absurd (cc))
labels_eq_iff (s ∷ ss) (t ∷ ts) = ground (arith, text_eq_iff s t, labels_eq_iff ss ts)

pub name_eq_iff : (m n : DnsName) → (name_eq m n ≡ true) ↔ (m ≡ n)
unfolding name_eq
name_eq_iff m n = ground (arith, labels_eq_iff m.labels n.labels)

-- A name is under another exactly when it ends in the other's labels.
pub is_subdomain_of_iff :
    (n other : DnsName)
    → (is_subdomain_of n other ≡ true) ↔ ((front : List Text) × (n.labels ≡ front ++ other.labels))
unfolding is_subdomain_of
is_subdomain_of_iff n other = (
  λ h. elim (Bool-cases (ltb (label_count n) (label_count other))) [
    | inl short ↦ absurd (cc (rw short at h))
    | inr long ↦
        let k = label_count n - label_count other in
        (
          take k n.labels,
          sym (take-drop_append k n.labels)
              ∙ ap (λ ls. take k n.labels ++ ls)
                  ((labels_eq_iff (drop k n.labels) other.labels).0 (rw long at h)),
        )
  ],
  λ h.
      let (front, e) = h in
      let whole : label_count n ≡ length front + label_count other =
        ap length e ∙ length-append front other.labels in
      let behind : label_count n - label_count other ≡ length front = omega arith in
      rw (le→ltb_false (label_count n) (label_count other) (omega arith), behind)
        ((labels_eq_iff (drop (length front) n.labels) other.labels).1
          (ap (drop (length front)) e ∙ drop-append front other.labels)),
)
