-- ===== src/Cache/ListLru.antt =====
-- An LRU cache as a list of pairs, most recent first: it has all that `LruCache` asks for.
use rust_dns_server.Base.{
  length-take-le, ℕ, zero, suc, ◌≡◌, ◌≢◌, refl, sym, ◌∙◌, inl, inr, Option-cases, Option, none,
  some, List, [], ◌∷◌, arith, length, take,
}
use rust_dns_server.Cache.Lru.{LruCache}

pub record Bounded (K V : Type 0) : Type 0 where
  pub bound : ℕ
  pub items : List (K × V)

module _ {K V : Type 0} (dec : Discrete K) where
  unfoldable pub find : K → List (K × V) → Option V
  find k [] = none
  find k ((j, v) ∷ l) = elim (dec j k) [ yes _ ↦ some v | no _ ↦ find k l ]

  unfoldable pub remove : K → List (K × V) → List (K × V)
  remove k [] = []
  remove k ((j, v) ∷ l) = elim (dec j k) [ yes _ ↦ remove k l | no _ ↦ (j, v) ∷ remove k l ]

  abbrev pub touch : K → Option V → List (K × V) → List (K × V)
  touch k none l = l
  touch k (some v) l = (k, v) ∷ remove k l

  pub find-remove_self : (k : K) (l : List (K × V)) → find k (remove k l) ≡ none
  unfolding find remove
  find-remove_self k [] = refl
  find-remove_self k ((j, v) ∷ l) = ground (arith, find-remove_self k l)

  pub find-remove_ne : (k j : K) (l : List (K × V)) → j ≢ k → find j (remove k l) ≡ find j l
  unfolding find remove
  find-remove_ne k j [] h = refl
  find-remove_ne k j ((i, v) ∷ l) h = ground (arith, find-remove_ne k j l h)

  find_moved :
      (k j : K) (v : V) (l : List (K × V))
      → find k l ≡ some v
      → find j ((k, v) ∷ remove k l) ≡ find j l
  find_moved k j v l h = elim (dec k j) [
    | yes same ↦ rw (← same) (unfold find in ground (arith, h))
    | no other ↦ unfold find in ground (arith, find-remove_ne k j l)
  ]

  pub find-touch : (k j : K) (l : List (K × V)) → find j (touch k (find k l) l) ≡ find j l
  find-touch k j l = elim (Option-cases (find k l)) [
    | inl miss ↦ rw miss refl
    | inr (v, hit) ↦ rw hit (find_moved k j v l hit)
  ]

  pub find-nil : (k : K) → find k [] ≡ none
  unfolding find
  find-nil k = refl

  find-take :
      (n : ℕ) (j : K) (w : V) (l : List (K × V)) → find j (take n l) ≡ some w → find j l ≡ some w
  unfolding find
  find-take zero j w l h = absurd (cc)
  find-take (suc n) j w [] h = h
  find-take (suc n) j w ((i, v) ∷ l) h = ground (arith, find-take n j w l)

  pub find-put_self :
      (n : ℕ) (k : K) (v : V) (l : List (K × V)) → n ≢ 0 → find k (take n ((k, v) ∷ l)) ≡ some v
  unfolding find
  find-put_self zero k v l h = absurd (h refl)
  find-put_self (suc n) k v l h = ground arith

  pub find-put_ne :
      (n : ℕ) (k j : K) (v w : V) (l : List (K × V))
      → j ≢ k
      → find j (take n ((k, v) ∷ remove k l)) ≡ some w
      → find j l ≡ some w
  unfolding find
  find-put_ne n k j v w l h e =
      sym (find-remove_ne k j l h) ∙ find_behind (find-take n j w ((k, v) ∷ remove k l) e)
    where
      find_behind : find j ((k, v) ∷ remove k l) ≡ some w → find j (remove k l) ≡ some w
      find_behind = λ p. ground arith

  abbrev pub list_lru : LruCache K V
  list_lru = record {
    Cache = Bounded K V;
    make = λ n. record { bound = n; items = [] };
    peek = λ k c. find k c.items;
    get = λ k c. (find k c.items, record c { items = touch k (find k c.items) c.items });
    put = λ k v c. record c { items = take c.bound ((k, v) ∷ remove k c.items) };
    pop = λ k c. record c { items = remove k c.items };
    clear = λ c. record c { items = [] };
    len = λ c. length c.items;
    cap = λ c. c.bound;
    peek-make = λ n k. find-nil k;
    cap-make = λ n. refl;
    get-peek = λ k c. refl;
    peek-get = λ k j c. find-touch k j c.items;
    peek-put_self = λ k v c h. find-put_self c.bound k v (remove k c.items) h;
    peek-put_ne = λ k j v w c h e. find-put_ne c.bound k j v w c.items h e;
    cap-get = λ k c. refl;
    cap-pop = λ k c. refl;
    cap-clear = λ c. refl;
    cap-put = λ k v c. refl;
    len-put = λ k v c h. length-take-le c.bound ((k, v) ∷ remove k c.items);
    peek-pop_self = λ k c. find-remove_self k c.items;
    peek-pop_ne = λ k j c h. find-remove_ne k j c.items h;
    peek-clear = λ k c. find-nil k;
    len-clear = λ c. refl;
  }
