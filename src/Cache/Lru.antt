-- ===== src/Cache/Lru.antt =====
-- The `LruCache` of the crate `lru`, which src/cache/mod.rs calls: its operations, and what the
-- crate documents of them. `peek` is the crate's read that does not count as a use.
use rust_dns_server.Base.{ℕ, ◌≤◌, ◌≡◌, ◌≢◌, Option, none, some}

pub record LruCache (K V : Type 0) : Type 1 where
  pub Cache : Type 0
  pub make : ℕ → Cache
  pub peek : K → Cache → Option V
  pub get : K → Cache → Option V × Cache
  pub put : K → V → Cache → Cache
  pub pop : K → Cache → Cache
  pub clear : Cache → Cache
  pub len : Cache → ℕ
  pub cap : Cache → ℕ
  -- A new cache is empty. `get` reads the entry, and changes none.
  pub peek-make : (n : ℕ) (k : K) → peek k (make n) ≡ none
  pub cap-make : (n : ℕ) → cap (make n) ≡ n
  pub get-peek : (k : K) (c : Cache) → (get k c).0 ≡ peek k c
  pub peek-get : (k j : K) (c : Cache) → peek j (get k c).1 ≡ peek j c
  -- `put` stores the entry, and every other entry stays or is evicted.
  pub peek-put_self : (k : K) (v : V) (c : Cache) → cap c ≢ 0 → peek k (put k v c) ≡ some v
  pub peek-put_ne :
      (k j : K) (v w : V) (c : Cache) → j ≢ k → peek j (put k v c) ≡ some w → peek j c ≡ some w
  pub cap-get : (k : K) (c : Cache) → cap (get k c).1 ≡ cap c
  pub cap-pop : (k : K) (c : Cache) → cap (pop k c) ≡ cap c
  pub cap-clear : (c : Cache) → cap (clear c) ≡ cap c
  pub cap-put : (k : K) (v : V) (c : Cache) → cap (put k v c) ≡ cap c
  pub len-put : (k : K) (v : V) (c : Cache) → len c ≤ cap c → len (put k v c) ≤ cap c
  -- `pop` removes the entry, and no other.
  pub peek-pop_self : (k : K) (c : Cache) → peek k (pop k c) ≡ none
  pub peek-pop_ne : (k j : K) (c : Cache) → j ≢ k → peek j (pop k c) ≡ peek j c
  pub peek-clear : (k : K) (c : Cache) → peek k (clear c) ≡ none
  pub len-clear : (c : Cache) → len (clear c) ≡ 0
