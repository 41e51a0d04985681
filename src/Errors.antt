-- ===== src/Errors.antt =====
-- Go's errors and panics as values, and code that returns an error while it changes a state.
use inventory_access_poc.Prelude.{◌≡◌, refl, ◌⊎◌, inl, inr, Bool, Option, none, some, if◌then◌else◌}
use inventory_access_poc.Prelude.Bytes.{Text}

-- What a call of the database, of SpiceDB or of a library reports; an error of the program's own;
-- and `errors.Wrap(err, message)` of an error that is not nil.
pub data Error : Type 0 where
  service : Text → Error
  message : Text → Error
  wrapped : Text → Error → Error

-- A call returns a value and a nil error, returns an error, or panics.
pub data Result (A : Type 0) : Type 0 where
  ok : A → Result A
  err : Error → Result A
  panic : Result A

abbrev pub ⊤ : Type 0
⊤ = Unit

-- An `error` that is returned alone.
abbrev pub returned : Option Error → Result ⊤
returned none = ok tt
returned (some e) = err e

-- `errors.Wrap`, which leaves a nil error nil.
abbrev pub wrap : {A : Type 0} → Text → Result A → Result A
wrap text (ok a) = ok a
wrap text (err e) = err (wrapped text e)
wrap text panic = panic

-- The state comes back on every path, since what was written stays written.
abbrev pub Action : Type 0 → Type 0 → Type 0
Action S A = S → Result A × S

module _ {S A : Type 0} where
  abbrev pub pure : A → Action S A
  pure a s = (ok a, s)

  abbrev pub lift : Result A → Action S A
  lift r s = (r, s)

abbrev pub modify : {S : Type 0} → (S → S) → Action S ⊤
modify f s = (ok tt, f s)

-- What follows a call: it is skipped when the call failed.
abbrev pub proceed : {S A B : Type 0} → Result A → (A → Action S B) → Action S B
proceed (ok a) f s = f a s
proceed (err e) f s = (err e, s)
proceed panic f s = (panic, s)

infixl 5 ◌>>=◌ ◌>>◌
abbrev pub ◌>>=◌ : {S A B : Type 0} → Action S A → (A → Action S B) → Action S B
◌>>=◌ m f s = let (r, s') = m s in proceed r f s'

abbrev pub ◌>>◌ : {S B : Type 0} → Action S ⊤ → Action S B → Action S B
m >> k = m >>= λ _. k

-- `if … { … }` with an action for a body.
abbrev pub when : {S : Type 0} → Bool → Action S ⊤ → Action S ⊤
when b m s = if b then m s else (ok tt, s)

proceed_assoc :
    {S A B C : Type 0} (r : Result A) (f : A → Action S B) (g : B → Action S C) (s : S)
    → proceed (proceed r f s).0 g (proceed r f s).1 ≡ proceed r (λ a. f a >>= g) s
proceed_assoc (ok a) f g s = refl
proceed_assoc (err e) f g s = refl
proceed_assoc panic f g s = refl

-- Steps that are grouped otherwise are the same steps.
pub bind_assoc :
    {S A B C : Type 0} (m : Action S A) (f : A → Action S B) (g : B → Action S C) (s : S)
    → ((m >>= f) >>= g) s ≡ (m >>= λ a. f a >>= g) s
bind_assoc m f g s = proceed_assoc (m s).0 f g (m s).1

pub Result-cases :
    {A : Type 0} (r : Result A) → ((a : A) × (r ≡ ok a)) ⊎ ((e : Error) × (r ≡ err e)) ⊎ (r ≡ panic)
Result-cases (ok a) = inl (a, refl)
Result-cases (err e) = inr (inl (e, refl))
Result-cases panic = inr (inr refl)

proceed_ok :
    {S A B : Type 0} (r : Result A) (f : A → Action S B) (s : S) (b : B)
    → (proceed r f s).0 ≡ ok b
    → (a : A) × (r ≡ ok a) × ((f a s).0 ≡ ok b)
proceed_ok (ok a) f s b h = (a, refl, h)
proceed_ok (err e) f s b h = cc
proceed_ok panic f s b h = cc

-- What a sequence returns, its last step returned after a first that succeeded.
pub bind_ok :
    {S A B : Type 0} (m : Action S A) (f : A → Action S B) (s : S) (b : B)
    → ((m >>= f) s).0 ≡ ok b
    → (a : A) × ((m s).0 ≡ ok a) × ((f a (m s).1).0 ≡ ok b)
bind_ok m f s b h = proceed_ok (m s).0 f (m s).1 b h
