-- ===== src/Action/Ends.antt =====
-- Actions of the resolver that end with a value.
use rust_dns_server.Base.{◌≡◌, refl}
use rust_dns_server.Action.{
  Answer, done, failed, panicked, unfinished, Action, continue, pure, ◌>>=◌,
}

pub done_eq : {A : Type 0} {a b : A} → ◌≡◌ {A = Answer A} (done a) (done b) → a ≡ b
done_eq h = cc

continue-done :
    {W A B : Type 0} (r : Answer A) (f : A → Action W B) (w : W) (b : B)
    → (continue r f w).0 ≡ done b
    → (a : A) × (r ≡ done a) × ((f a w).0 ≡ done b)
continue-done (done a) f w b h = (a, refl, h)
continue-done (failed code) f w b h = absurd (cc)
continue-done panicked f w b h = absurd (cc)
continue-done unfinished f w b h = absurd (cc)

-- Two steps that end with a value: so does the first.
pub bind-done :
    {W A B : Type 0} (m : Action W A) (f : A → Action W B) (w : W) (b : B)
    → ((m >>= f) w).0 ≡ done b
    → (a : A) × ((m w).0 ≡ done a) × ((f a (m w).1).0 ≡ done b)
unfolding ◌>>=◌
bind-done m f w b h = continue-done (m w).0 f (m w).1 b h

pub pure-done : {W A : Type 0} (a b : A) (w : W) → (pure a w).0 ≡ done b → a ≡ b
unfolding pure
pure-done a b w h = done_eq h
