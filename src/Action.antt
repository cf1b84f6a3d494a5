-- ===== src/Action.antt =====
-- What an operation of the resolver does: it reads and changes the world, and ends with a value, an
-- error code (`Result<T, ResponseCode>`), or a panic. `unfinished` is no outcome of the program: the
-- rounds that the model allows a loop have run out.
pub mod Keeps
pub mod Ends
use rust_dns_server.Base.{Bool, Option, none, some}
use rust_dns_server.Codes.ResponseCode.{ResponseCode}

pub data Answer (A : Type 0) : Type 0 where
  done : A → Answer A
  failed : ResponseCode → Answer A
  panicked : Answer A
  unfinished : Answer A

abbrev pub Action : Type 0 → Type 0 → Type 0
Action W A = W → Answer A × W

-- `Result` as a value, where the code matches on it.
pub data Attempt (A : Type 0) : Type 0 where
  success : A → Attempt A
  error : ResponseCode → Attempt A

abbrev pub attempted : {A : Type 0} → Answer A → Answer (Attempt A)
attempted (done a) = done (success a)
attempted (failed code) = done (error code)
attempted panicked = panicked
attempted unfinished = unfinished

module _ {W : Type 0} where
  unfoldable pub pure : {A : Type 0} → A → Action W A
  pure a w = (done a, w)

  unfoldable pub fail : {A : Type 0} → ResponseCode → Action W A
  fail code w = (failed code, w)

  unfoldable pub panic : {A : Type 0} → Action W A
  panic w = (panicked, w)

  unfoldable pub give_up : {A : Type 0} → Action W A
  give_up w = (unfinished, w)

  -- An operation of the world that always ends.
  unfoldable pub perform : {A : Type 0} → (W → A × W) → Action W A
  perform f w = let (a, w') = f w in (done a, w')

  unfoldable pub modify : (W → W) → Action W (Unit {0})
  modify f w = (done tt, f w)

  abbrev pub continue : {A B : Type 0} → Answer A → (A → Action W B) → Action W B
  continue (done a) f w = f a w
  continue (failed code) f w = (failed code, w)
  continue panicked f w = (panicked, w)
  continue unfinished f w = (unfinished, w)

  -- Both are opened with `>>=`.
  infixl 5 ◌>>=◌ ◌>>◌
  unfoldable pub ◌>>=◌ : {A B : Type 0} → Action W A → (A → Action W B) → Action W B
  unfolding pure fail panic give_up perform modify
  ◌>>=◌ m f w = continue (m w).0 f (m w).1

  abbrev pub ◌>>◌ : {A B : Type 0} → Action W A → Action W B → Action W B
  m >> k = m >>= λ _. k

  unfoldable pub attempt : {A : Type 0} → Action W A → Action W (Attempt A)
  attempt m w = (attempted (m w).0, (m w).1)
