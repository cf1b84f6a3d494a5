-- ===== src/Doh/Params.antt =====
-- The query string of a GET request, and the parameter that `handle_get` finds in it.
use rust_dns_server.Base.{
  ℕ, ◌≡◌, refl, true, false, Option, none, some, List, [], ◌∷◌, ◌++◌, All, ◌==◌, Bool-cases, inl,
  inr, if◌then◌else◌,
}
use rust_dns_server.Text.{Text, ascii}
use rust_dns_server.Name.{text_eq}
use rust_dns_server.Doh.{split_on, key_value, dns_param}

abbrev pub Lacks : ℕ → Text → Type 0
Lacks separator = All (λ c. (c == separator) ≡ false)

-- A query string as its parameters, each `key=value`.
unfoldable pub query_text : List (Text × Text) → Text
query_text [] = []
query_text ((key, value) ∷ []) = key ++ (61 ∷ value)
query_text ((key, value) ∷ p ∷ ps) = (key ++ (61 ∷ value)) ++ (38 ∷ query_text (p ∷ ps))

-- The first value of the key.
unfoldable pub value_of : Text → List (Text × Text) → Option Text
value_of k [] = none
value_of k ((key, value) ∷ ps) =
    let rest = value_of k ps in if text_eq key k then some value else rest

-- No parameter has a separator in it that would end it: `&` nowhere, `=` not in a key.
abbrev pub AreParams : List (Text × Text) → Type 0
AreParams = All (λ (p : Text × Text). Lacks 61 p.0 × Lacks 38 p.0 × Lacks 38 p.1)

key_value-pair :
    (key value : Text) → Lacks 61 key → key_value (key ++ (61 ∷ value)) ≡ some (key, value)
unfolding key_value
key_value-pair [] value h = refl
key_value-pair (c ∷ key) value h = rw (h.0, key_value-pair key value h.1) refl

split_on-piece : (sep : ℕ) (s : Text) → Lacks sep s → split_on sep s ≡ s ∷ []
unfolding split_on
split_on-piece sep [] h = refl
split_on-piece sep (c ∷ s) h = rw (split_on-piece sep s h.1, h.0) refl

split_on-cons :
    (sep : ℕ) (s : Text) → (piece : Text) × (rest : List Text) × (split_on sep s ≡ piece ∷ rest)
unfolding split_on
split_on-cons sep [] = ([], [], refl)
split_on-cons sep (c ∷ s) =
    let (piece, rest, e) = split_on-cons sep s in
    elim (Bool-cases (c == sep)) [
      | inl p ↦ ([], piece ∷ rest, rw (e, p) refl)
      | inr q ↦ (c ∷ piece, rest, rw (e, q) refl)
    ]

split_on-separator :
    (sep : ℕ) (s : Text) → (sep == sep) ≡ true → split_on sep (sep ∷ s) ≡ [] ∷ split_on sep s
unfolding split_on
split_on-separator sep s h = let (piece, rest, e) = split_on-cons sep s in rw (e, h) refl

split_on-append :
    (sep : ℕ) (s u : Text)
    → (sep == sep) ≡ true
    → Lacks sep s
    → split_on sep (s ++ (sep ∷ u)) ≡ s ∷ split_on sep u
unfolding split_on
split_on-append sep [] u same h = split_on-separator sep u same
split_on-append sep (c ∷ s) u same h = rw (split_on-append sep s u same h.1, h.0) refl

Lacks-append : (sep : ℕ) (s u : Text) → Lacks sep s → Lacks sep u → Lacks sep (s ++ u)
Lacks-append sep [] u h k = k
Lacks-append sep (c ∷ s) u h k = (h.0, Lacks-append sep s u h.1 k)

pair-Lacks : (key value : Text) → Lacks 38 key → Lacks 38 value → Lacks 38 (key ++ (61 ∷ value))
pair-Lacks key value h k = Lacks-append 38 key (61 ∷ value) h (refl, k)

-- In a query string made of parameters, `handle_get` finds the first value of `dns`, and nothing if
-- no key is `dns`.
pub dns_param-query_text :
    (ps : List (Text × Text))
    → AreParams ps
    → dns_param (split_on 38 (query_text ps)) ≡ value_of (ascii "dns") ps
unfolding query_text value_of dns_param split_on key_value
dns_param-query_text [] h = refl
dns_param-query_text ((key, value) ∷ []) ((k, a, v), h) =
    rw
      (
        split_on-piece 38 (key ++ (61 ∷ value)) (pair-Lacks key value a v),
        dns_param,
        key_value-pair key value k,
      )
      refl
dns_param-query_text ((key, value) ∷ p ∷ ps) ((k, a, v), h) =
    rw
      (
        split_on-append 38 (key ++ (61 ∷ value)) (query_text (p ∷ ps)) refl
            (pair-Lacks key value a v),
        dns_param,
        key_value-pair key value k,
        dns_param-query_text (p ∷ ps) h,
      )
      refl
