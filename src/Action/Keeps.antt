-- ===== src/Action/Keeps.antt =====
-- What holds behind an action: of the world in every case, and of the value where there is one.
use rust_dns_server.Base.{◌≡◌, refl, Bool, true, false, if◌then◌else◌}
use rust_dns_server.Codes.ResponseCode.{ResponseCode}
use rust_dns_server.Action.{
  Answer, done, failed, panicked, unfinished, Action, Attempt, success, error, pure, fail, panic,
  give_up, perform, modify, continue, ◌>>=◌, attempted, attempt,
}

-- `Q` of the value; a panic is allowed only if `may_panic`.
abbrev pub Ensures : {A : Type 0} → Type 0 → (A → Type 0) → Answer A → Type 0
Ensures may_panic Q (done a) = Q a
Ensures may_panic Q (failed code) = Unit
Ensures may_panic Q panicked = may_panic
Ensures may_panic Q unfinished = Unit

-- From a world with `P` the action goes to a world with `P`, and its value has `Q`.
pub record Runs {W A : Type 0} (P : W → Type 0) (may_panic : Type 0) (Q : A → Type 0)
    (m : Action W A) : Type 0 where
  pub world : (w : W) → P w → P (m w).1
  pub value : (w : W) → P w → Ensures may_panic Q (m w).0

-- `Q` of the value of a successful attempt.
abbrev pub Succeeds : {A : Type 0} → (A → Type 0) → Attempt A → Type 0
Succeeds Q (success a) = Q a
Succeeds Q (error code) = Unit

attempted-Ensures :
    {A : Type 0} (may_panic : Type 0) (Q : A → Type 0) (r : Answer A)
    → Ensures may_panic Q r
    → Ensures may_panic (Succeeds Q) (attempted r)
attempted-Ensures may_panic Q (done a) q = q
attempted-Ensures may_panic Q (failed code) q = tt
attempted-Ensures may_panic Q panicked q = q
attempted-Ensures may_panic Q unfinished q = tt

module _ {W : Type 0} {P : W → Type 0} {may_panic : Type 0} where
  pub Runs-pure : {A : Type 0} {Q : A → Type 0} (a : A) → Q a → Runs P may_panic Q (pure a)
  unfolding pure
  Runs-pure a q = record { world = λ w h. h; value = λ w h. q }

  pub Runs-fail :
      {A : Type 0} {Q : A → Type 0} (code : ResponseCode) → Runs P may_panic Q (fail code)
  unfolding fail
  Runs-fail code = record { world = λ w h. h; value = λ w h. tt }

  pub Runs-give_up : {A : Type 0} {Q : A → Type 0} → Runs P may_panic Q (give_up)
  unfolding give_up
  Runs-give_up = record { world = λ w h. h; value = λ w h. tt }

  pub Runs-panic : {A : Type 0} {Q : A → Type 0} → may_panic → Runs P may_panic Q (panic)
  unfolding panic
  Runs-panic may = record { world = λ w h. h; value = λ w h. may }

  pub Runs-perform :
      {A : Type 0} {Q : A → Type 0} (f : W → A × W)
      → ((w : W) → P w → P (f w).1)
      → ((w : W) → P w → Q (f w).0)
      → Runs P may_panic Q (perform f)
  unfolding perform
  Runs-perform f k q = record { world = k; value = q }

  pub Runs-modify :
      (f : W → W) → ((w : W) → P w → P (f w)) → Runs P may_panic (λ _. Unit {0}) (modify f)
  unfolding modify
  Runs-modify f k = record { world = k; value = λ w h. tt }

  module _ {A B : Type 0} {Q : A → Type 0} {R : B → Type 0} where
    continue-world :
        (r : Answer A) (f : A → Action W B) (w : W)
        → P w
        → Ensures may_panic Q r
        → ((a : A) → Q a → Runs P may_panic R (f a))
        → P (continue r f w).1
    continue-world (done a) f w h q k = (k a q).world w h
    continue-world (failed code) f w h q k = h
    continue-world panicked f w h q k = h
    continue-world unfinished f w h q k = h

    continue-value :
        (r : Answer A) (f : A → Action W B) (w : W)
        → P w
        → Ensures may_panic Q r
        → ((a : A) → Q a → Runs P may_panic R (f a))
        → Ensures may_panic R (continue r f w).0
    continue-value (done a) f w h q k = (k a q).value w h
    continue-value (failed code) f w h q k = tt
    continue-value panicked f w h q k = q
    continue-value unfinished f w h q k = tt

    pub Runs-bind :
        (m : Action W A) (f : A → Action W B)
        → Runs P may_panic Q m
        → ((a : A) → Q a → Runs P may_panic R (f a))
        → Runs P may_panic R (m >>= f)
    unfolding ◌>>=◌
    Runs-bind m f km kf = record {
      world = λ w h. continue-world (m w).0 f (m w).1 (km.world w h) (km.value w h) kf;
      value = λ w h. continue-value (m w).0 f (m w).1 (km.world w h) (km.value w h) kf;
    }

  pub Runs-attempt :
      {A : Type 0} {Q : A → Type 0} (m : Action W A)
      → Runs P may_panic Q m
      → Runs P may_panic (Succeeds Q) (attempt m)
  unfolding attempt
  Runs-attempt {Q} m k = record {
    world = k.world;
    value = λ w h. attempted-Ensures may_panic Q (m w).0 (k.value w h);
  }

  pub Runs-if :
      {A : Type 0} {Q : A → Type 0} (b : Bool) (m n : Action W A)
      → (b ≡ true → Runs P may_panic Q m)
      → (b ≡ false → Runs P may_panic Q n)
      → Runs P may_panic Q (if b then m else n)
  Runs-if true m n km kn = km refl
  Runs-if false m n km kn = kn refl
