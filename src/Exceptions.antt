-- ===== src/Exceptions.antt =====
-- veda/exceptions.py: the errors of a computation and the other exceptions that the modelled code
-- raises or meets, and calls that may raise: a call returns its result beside the state that it
-- leaves, since what was written before a raise stays written.
use veda_bvm.Common.{◌⊎◌, inl, inr, ℕ, ◌≡◌, refl, ap, Bool, true, false, List, ⊤, if◌then◌else◌}

-- The subclasses of `VMError`. `revert` carries the output, as `Revert(computation.output)` does.
pub data VmError : Type 0 where
  out_of_gas insufficient_stack full_stack invalid_jump_destination : VmError
  invalid_instruction insufficient_funds stack_depth_limit : VmError
  contract_creation_collision incorrect_contract_creation_address : VmError
  revert : List ℕ → VmError
  write_protection out_of_bounds_read reserved_bytes_in_code : VmError

unfoldable pub burns_gas : VmError → Bool
burns_gas (VmError.revert _) = false
burns_gas _ = true

unfoldable pub erases_return_data : VmError → Bool
erases_return_data (VmError.revert _) = false
erases_return_data _ = true

pub data Exception : Type 0 where
  vm_error : VmError → Exception
  halt validation_error value_error key_error type_error attribute_error gap_tracking_corrupted
        stop_iteration :
      Exception
  -- `raise Exception("Invariant")`
  invariant_broken : Exception

pub data Result (A : Type 0) : Type 0 where
  ok : A → Result A
  err : Exception → Result A

-- A method of an object whose state is `S`.
abbrev pub Action : Type 0 → Type 0 → Type 0
Action S A = S → Result A × S

infixl 5 ◌>>=◌ ◌>>◌
abbrev pub ◌>>=◌ : {S A B : Type 0} → Action S A → (A → Action S B) → Action S B
◌>>=◌ m f s = let (r, t) = m s in elim r [ ok a ↦ f a t | err e ↦ (err e, t) ]

abbrev pub ◌>>◌ : {S A B : Type 0} → Action S A → Action S B → Action S B
m >> k = m >>= λ _. k

module _ {S A : Type 0} where
  abbrev pub pure : A → Action S A
  pure a s = (ok a, s)

  abbrev pub raise : Exception → Action S A
  raise e s = (err e, s)

  abbrev pub gets : (S → A) → Action S A
  gets f s = (ok (f s), s)

  -- A function that reads and writes no state, but may raise.
  abbrev pub lift : Result A → Action S A
  lift r s = (r, s)

module _ {S : Type 0} where
  abbrev pub modify : (S → S) → Action S ⊤
  modify f s = (ok tt, f s)

  abbrev pub raise_if : Bool → Exception → Action S ⊤
  raise_if b e s = (if b then err e else ok tt, s)

-- A call of a method of the part of `C` that `view` reads and `put` writes back.
abbrev pub zoom : {C S A : Type 0} → (C → S) → (C → S → C) → Action S A → Action C A
zoom view put m c = let (r, s) = m (view c) in (r, put c s)

-- What is done to the result of a call does not change the state that it leaves.
pub bind_pure-state :
    {S A B : Type 0} (m : Action S A) (f : A → B) (s : S) → ((m >>= λ a. pure (f a)) s).1 ≡ (m s).1
bind_pure-state {S} {A} {B} m f s = go (m s)
  where
    go :
        (p : Result A × S)
        → (elim p.0 as (λ r. Result B × S) [ ok a ↦ (ok (f a), p.1) | err e ↦ (err e, p.1) ]).1
          ≡ p.1
    go (ok a, t) = refl
    go (err e, t) = refl

pub Result-cases : (r : Result ⊤) → (r ≡ ok tt) ⊎ ((e : Exception) × (r ≡ err e))
Result-cases (ok _) = inl refl
Result-cases (err e) = inr (e, refl)

unfoldable pub map_result : {A B : Type 0} → (A → B) → Result A → Result B
map_result f (ok a) = ok (f a)
map_result f (err e) = err e

pub bind_pure-result :
    {S A B : Type 0} (m : Action S A) (f : A → B) (s : S)
    → ((m >>= λ a. pure (f a)) s).0 ≡ map_result f (m s).0
unfolding map_result
bind_pure-result {S} {A} {B} m f s = go (m s)
  where
    go :
        (p : Result A × S)
        → (elim p.0 as (λ r. Result B × S) [ ok a ↦ (ok (f a), p.1) | err e ↦ (err e, p.1) ]).0
          ≡ map_result f p.0
    go (ok a, t) = refl
    go (err e, t) = refl

-- A chain of calls goes on with the result of the first, or ends with its exception.
module _ {S A B : Type 0} (m : Action S A) (f : A → Action S B) {s t : S} where
  pub bind_ok : {a : A} → m s ≡ (ok a, t) → (m >>= f) s ≡ f a t
  bind_ok h = ap (λ p. elim p.0 as (λ r. Result B × S) [ ok a ↦ f a p.1 | err e ↦ (err e, p.1) ]) h

  pub bind_err : {e : Exception} → m s ≡ (err e, t) → (m >>= f) s ≡ (err e, t)
  bind_err h = ap (λ p. elim p.0 as (λ r. Result B × S) [ ok a ↦ f a p.1 | err e ↦ (err e, p.1) ]) h
