-- ===== src/Zone/Find.antt =====
-- `ZoneStore::find_zone`: the most specific zone.
use mathlib.Core.List.{Memᴰ}
use mathlib.Core.Path.{subst}
use rust_dns_server.Base.{
  ℕ, ◌≤◌, ◌≡◌, refl, sym, ◌∙◌, ◌⊎◌, true, false, Option, none, some, List, [], ◌∷◌, arith, All,
  Bool-cases, inl, inr,
}
use rust_dns_server.Name.{DnsName, label_count}
use rust_dns_server.Zone.{Zone, contains, better, best_of, find_zone}

abbrev pub specificity : Zone → ℕ
specificity z = label_count z.name

-- A zone of the list that contains the name, with the most labels of all that do; or that no zone
-- of the list contains the name.
abbrev pub IsBest : DnsName → List Zone → Option Zone → Type 0
IsBest n zones none = All (λ (z : Zone). contains z n ≡ false) zones
IsBest n zones (some best) =
    Memᴰ best zones
    × (contains best n ≡ true)
    × All (λ (z : Zone). contains z n ≡ true → specificity z ≤ specificity best) zones

-- The same for a loop that starts from `before`.
abbrev Improves : DnsName → Option Zone → List Zone → Option Zone → Type 0
Improves n before zones none = (before ≡ none) × All (λ (z : Zone). contains z n ≡ false) zones
Improves n before zones (some best) =
    ((before ≡ some best) ⊎ (Memᴰ best zones × (contains best n ≡ true)))
    × ((z : Zone) → before ≡ some z → specificity z ≤ specificity best)
    × All (λ (z : Zone). contains z n ≡ true → specificity z ≤ specificity best) zones

some_zone : (y z : Zone) → some y ≡ some z → y ≡ z
some_zone y z h = cc

better-ge_new : (before : Option Zone) (z : Zone) → specificity z ≤ specificity (better before z)
unfolding better
better-ge_new none z = omega arith
better-ge_new (some b) z = ground arith

better-ge_old :
    (before : Option Zone) (z y : Zone)
    → before ≡ some y
    → specificity y ≤ specificity (better before z)
unfolding better
better-ge_old none z y h = absurd (cc)
better-ge_old (some b) z y h = rw (← some_zone b y h) (ground arith)

better_cases :
    (before : Option Zone) (z : Zone) → (before ≡ some (better before z)) ⊎ (better before z ≡ z)
unfolding better
better_cases none z = inr refl
better_cases (some b) z = ground arith

skip-Improves :
    (n : DnsName) (before : Option Zone) (z : Zone) (zones : List Zone) (r : Option Zone)
    → contains z n ≡ false
    → Improves n before zones r
    → Improves n before (z ∷ zones) r
skip-Improves n before z zones none e (same, rest) = (same, (e, rest))
skip-Improves n before z zones (some best) e (inl old, bound, rest) =
    (inl old, bound, ((λ h. absurd (cc)), rest))
skip-Improves n before z zones (some best) e (inr (m, c), bound, rest) =
    (inr (Memᴰ.tail m, c), bound, ((λ h. absurd (cc)), rest))

take-Improves :
    (n : DnsName) (before : Option Zone) (z : Zone) (zones : List Zone) (r : Option Zone)
    → contains z n ≡ true
    → Improves n (some (better before z)) zones r
    → Improves n before (z ∷ zones) r
take-Improves n before z zones none e (same, rest) = absurd (cc)
take-Improves n before z zones (some best) e (from, bound, rest) =
    let passed = bound (better before z) refl in
    let source : (before ≡ some best) ⊎ (Memᴰ best (z ∷ zones) × (contains best n ≡ true)) =
      elim from [
        | inr (m, c) ↦ inr (Memᴰ.tail m, c)
        | inl now ↦ elim (better_cases before z) [
          | inl old ↦ inl (old ∙ now)
          | inr new ↦
              let same : best ≡ z = sym (some_zone _ best now) ∙ new in
              inr (Memᴰ.head same, rw same e)
        ]
      ] in
    (
      source,
      λ y h. omega (arith, passed, better-ge_old before z y h),
      ((λ h. omega (arith, passed, better-ge_new before z)), rest),
    )

best_of-Improves :
    (n : DnsName) (zones : List Zone) (before : Option Zone)
    → Improves n before zones (best_of n zones before)
unfolding best_of
best_of-Improves n [] none = (refl, tt)
best_of-Improves n [] (some b) = (inl refl, λ z h. rw (some_zone b z h) (omega arith), tt)
best_of-Improves n (z ∷ zones) before = elim (Bool-cases (contains z n)) [
  | inl inside ↦
      rw inside (
        take-Improves n before z zones _ inside (best_of-Improves n zones (some (better before z))))
  | inr outside ↦
      rw outside (skip-Improves n before z zones _ outside (best_of-Improves n zones before))
]

Improves-IsBest :
    (n : DnsName) (zones : List Zone) (r : Option Zone) → Improves n none zones r → IsBest n zones r
Improves-IsBest n zones none (same, rest) = rest
Improves-IsBest n zones (some best) (inl old, bound, rest) = absurd (cc)
Improves-IsBest n zones (some best) (inr (m, c), bound, rest) = (m, c, rest)

-- `find_zone` gives a zone that contains the name and has the most labels of all that do, and none
-- only if no zone contains it.
pub find_zone-IsBest : (n : DnsName) (zones : List Zone) → IsBest n zones (find_zone zones n)
unfolding find_zone
find_zone-IsBest n zones = Improves-IsBest n zones _ (best_of-Improves n zones none)

pub find_zone-Memᴰ :
    (n : DnsName) (zones : List Zone) (z : Zone) → find_zone zones n ≡ some z → Memᴰ z zones
find_zone-Memᴰ n zones z e = (subst (IsBest n zones) e (find_zone-IsBest n zones)).0
