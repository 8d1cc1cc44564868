-- ===== src/Base/Results.antt =====
-- Calls that fail or panic. `Result` is the outcome of a function that changes nothing, `Reply`
-- that of a method on `&mut self`: an error keeps the state reached so far, a panic ends it.
use antarc.Shared.{subst, Bool, true, false, if◌then◌else◌, ◌≡◌, refl, Option, none, some}
use antarc.Base.Errors.{ProtocolError}

pub data Reply {ℓ} (S A : Type ℓ) : Type ℓ where
  panicked : Reply S A
  done : S → A → Reply S A
  failed : S → ProtocolError → Reply S A

pub data Result {ℓ} (A : Type ℓ) : Type ℓ where
  panic : Result A
  ok : A → Result A
  err : ProtocolError → Result A

module _ {ℓ} {A : Type ℓ} where
  -- `Option::unwrap` and `Option::expect`.
  abbrev pub unwrap : Option A → Result A
  unwrap none = panic
  unwrap (some a) = ok a

  -- `Option::ok_or`.
  abbrev pub ok_or : Option A → ProtocolError → Result A
  ok_or none problem = err problem
  ok_or (some a) problem = ok a

-- The operator `?`, and a statement whose value is not used.
infixl 5 ◌>>=◌ ◌>>◌
abbrev pub ◌>>=◌ {κ ℓ} : {B : Type κ} {A : Type ℓ} → Result A → (A → Result B) → Result B
panic >>= continue = panic
err problem >>= continue = err problem
ok value >>= continue = continue value

abbrev pub ◌>>◌ {κ} : {B : Type κ} → Result (Unit {0}) → Result B → Result B
statement >> continue = statement >>= λ value. continue

module _ {ℓ} {S A B : Type ℓ} where
  -- A call that leaves the state alone, followed by the rest of the method.
  abbrev pub lift : S → Result A → (A → Reply S B) → Reply S B
  lift s panic continue = panicked
  lift s (err problem) continue = failed s problem
  lift s (ok value) continue = continue value

  -- A call of a method, followed by the rest of the caller.
  abbrev pub and_then : Reply S A → (S → A → Reply S B) → Reply S B
  and_then panicked continue = panicked
  and_then (failed s problem) continue = failed s problem
  and_then (done s value) continue = continue s value

-- A chain of two calls succeeds only if both do.
pub >>=-eq-ok {κ ℓ} :
    {B : Type κ} {A : Type ℓ} (call : Result A) (continue : A → Result B) {answer : B}
    → (call >>= continue) ≡ ok answer
    → (value : A) × (call ≡ ok value) × (continue value ≡ ok answer)
>>=-eq-ok panic continue succeeds = cc
>>=-eq-ok (err problem) continue succeeds = cc
>>=-eq-ok (ok value) continue succeeds = (value, refl, succeeds)

pub ok-injective : {A : Type 0} {a b : A} → ok a ≡ ok b → a ≡ b
ok-injective h = cc

-- Where a method returns, with an error or without, `P` holds of the state.
pub data Leaves {S A : Type 0} (P : S → Type 0) : Reply S A → Type 0 where
  left_panicked : Leaves P panicked
  left_done : {s : S} {answer : A} → P s → Leaves P (done s answer)
  left_failed : {s : S} {problem : ProtocolError} → P s → Leaves P (failed s problem)

module _ {S A : Type 0} (P : S → Type 0) where
  pub if-Leaves :
      (test : Bool) {on_true on_false : Reply S A}
      → Leaves P on_true
      → Leaves P on_false
      → Leaves P (if test then on_true else on_false)
  if-Leaves true left right = left
  if-Leaves false left right = right

module _ {S A B : Type 0} (P : S → Type 0) where
  pub lift-Leaves :
      (s : S) (call : Result A) {continue : A → Reply S B}
      → P s
      → ((a : A) → Leaves P (continue a))
      → Leaves P (lift s call continue)
  lift-Leaves s panic before after = left_panicked
  lift-Leaves s (err problem) before after = left_failed before
  lift-Leaves s (ok a) before after = after a

  pub and_then-Leaves :
      {reply : Reply S A} {continue : S → A → Reply S B}
      → Leaves P reply
      → ((s : S) (a : A) → P s → Leaves P (continue s a))
      → Leaves P (and_then reply continue)
  and_then-Leaves left_panicked after = left_panicked
  and_then-Leaves (left_failed before) after = left_failed before
  and_then-Leaves (left_done {s = s} {answer = a} before) after = after s a before

module _ {S A : Type 0} {P : S → Type 0} {reply : Reply S A} {s : S} where
  pub Leaves-done : {answer : A} → Leaves P reply → reply ≡ done s answer → P s
  Leaves-done {answer} left e = by_cases (subst (Leaves P) e left)
    where
      by_cases : Leaves P (done s answer) → P s
      by_cases (left_done p) = p

  pub Leaves-failed : {problem : ProtocolError} → Leaves P reply → reply ≡ failed s problem → P s
  Leaves-failed {problem} left e = by_cases (subst (Leaves P) e left)
    where
      by_cases : Leaves {A = A} P (failed s problem) → P s
      by_cases (left_failed p) = p
