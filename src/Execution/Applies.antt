-- ===== src/Execution/Applies.antt =====
-- Messages come to a result, and one whose computation fails leaves the accounts as they were.
use veda_bvm.Common.{ℕ, ◌≡◌, ◌<◌, refl, subst, Option, none, some, ⊤, Bool-cases, inl, inr, ltb}
use veda_bvm.Exceptions.{VmError, Exception, Result, ok, err, vm_error}
use veda_bvm.Execution.Messages.{
  ChainState, close, create_from, reverting, committing, apply_message, apply_create_message,
  validate_create_message, stack_depth_limit,
}
use veda_bvm.Execution.Opens.{KeepsOpen, Left, apply_computation-Left}
use veda_bvm.Execution.Reverts.{
  Undone, NoError-Undone, err-NoError, close-Undone, create_from-Undone,
}
use veda_bvm.Execution.Run.{Step, frame, apply_computation}
use veda_bvm.Execution.Whole.{Configured, apply_computation_lem}
use veda_bvm.Execution.{Tree, is_error}
use veda_bvm.Message.{Message, Address, storage_address}

module _ {S : Type 0} (state : ChainState S) where
  -- A snapshot that is open in the one state is open in the other.
  abbrev pub KeepsAll : S → S → Type 0
  KeepsAll s u = (c : state.Snapshot) (s0 : S) → state.IsOpen c s0 s → state.IsOpen c s0 u

  -- There is a result, and if it is a computation with an error, the accounts are those of `s`.
  pub record Applied (s : S) (o : Option (Result Tree × S)) : Type 0 where
    pub result : Result Tree
    pub final : S
    pub runs : o ≡ some (result, final)
    pub undone : Undone state s (result, final)
    pub keeps : KeepsAll s final

  -- The same, without the snapshots.
  pub record Created (s : S) (o : Option (Result Tree × S)) : Type 0 where
    pub result : Result Tree
    pub final : S
    pub runs : o ≡ some (result, final)
    pub undone : Undone state s (result, final)

  raised-Created : (s : S) (e : Exception) (u : S) → Created s (some (err e, u))
  raised-Created s e u = record {
    result = err e;
    final = u;
    runs = refl;
    undone = NoError-Undone state s (err e, u) (err-NoError e);
  }

  raised-Applied : (s : S) (e : Exception) (u : S) → KeepsAll s u → Applied s (some (err e, u))
  raised-Applied s e u k = record {
    result = err e;
    final = u;
    runs = refl;
    undone = NoError-Undone state s (err e, u) (err-NoError e);
    keeps = k;
  }

  -- Opcodes and precompiled contracts that take gas and leave the open snapshots.
  pub record Careful (opcodes : ℕ → Option (Step S)) (precompiles : Address → Option (Step S))
      : Type 0 where
    pub configured : Configured opcodes precompiles
    pub each : (k : ℕ) (fn : Step S) → opcodes k ≡ some fn → KeepsOpen state fn
    pub contracts : (a : Address) (fn : Step S) → precompiles a ≡ some fn → KeepsOpen state fn

  Left-some :
      (c : state.Snapshot) (s0 : S) {o : Option (Result Tree × S)} {r : Result Tree} {u : S}
      → Left state c s0 o
      → o ≡ some (r, u)
      → state.IsOpen c s0 u
  Left-some c s0 left e = subst (Left state c s0) e left

  -- Closing a snapshot leaves the older ones.
  close-IsOpen :
      (c snap : state.Snapshot) (s0 s u : S) (t : Tree)
      → state.IsOpen c s0 s
      → state.IsOpen snap s u
      → state.IsOpen c s0 (close state snap t u).1
  unfolding close reverting committing
  close-IsOpen c snap s0 s u t h k = elim (Bool-cases (is_error (frame t))) [
    | inl failed ↦ rw (close, failed) (state.reverted-IsOpen c snap s0 s u h k)
    | inr fine ↦ rw (close, fine) (state.committed-IsOpen c snap s0 s u h k)
  ]

  module _ (opcodes : ℕ → Option (Step S)) (precompiles : Address → Option (Step S))
      (able : Careful opcodes precompiles) where
    -- With fuel above the gas of the message, and opcodes and precompiled contracts that take gas and
    -- leave the open snapshots of the state, applying a message comes to a result, and if that is a
    -- computation with an error, the accounts of the state are as they were before; older snapshots
    -- stay open.
    pub apply_message_lem :
        (fuel : ℕ) (msg : Message) (origin : Address) (s : S)
        → msg.gas < fuel
        → Applied s (apply_message state opcodes precompiles fuel msg origin s)
    unfolding apply_message
    apply_message_lem fuel msg origin s lt = elim (Bool-cases (ltb stack_depth_limit msg.depth)) [
      | inl deep ↦
          rw (apply_message, deep)
            (raised-Applied s (vm_error VmError.stack_depth_limit) s1
              (λ c s0 h. state.later-IsOpen c s0 s h))
      | inr room ↦
          rw (apply_message, room)
            (touched (state.touch_account a s1).0 (state.touch_account a s1).1
              (state.touch_account-IsOpen snap s s1 a (state.snapshot-IsOpen s))
              (λ c s0 h. state.touch_account-IsOpen c s0 s1 a (state.later-IsOpen c s0 s h)))
    ]
      where
        a : Address
        a = storage_address msg

        snap : state.Snapshot
        snap = (state.snapshot s).0

        s1 : S
        s1 = (state.snapshot s).1

        closed :
            (r : Result Tree) (u : S)
            → state.IsOpen snap s u
            → KeepsAll s u
            → Applied s (elim r [ err e ↦ some (err e, u) | ok t ↦ some (close state snap t u) ])
        closed (err e) u h k = raised-Applied s e u k
        closed (ok t) u h k = record {
          result = (close state snap t u).0;
          final = (close state snap t u).1;
          runs = refl;
          undone = close-Undone state snap s t u h;
          keeps = λ c s0 o. close-IsOpen c snap s0 s u t o h;
        }

        touched :
            (r : Result ⊤) (s2 : S)
            → state.IsOpen snap s s2
            → KeepsAll s s2
            → Applied s (elim r [
              | err e ↦ some (err e, s2)
              | ok _ ↦ elim (apply_computation opcodes precompiles fuel msg origin s2) [
                | none ↦ none
                | some (computation, s3) ↦ elim computation [
                  | err e ↦ some (err e, s3)
                  | ok t ↦ some (close state snap t s3)
                ]
              ]
            ])
        touched (err e) s2 h k = raised-Applied s e s2 k
        touched (ok _) s2 h k =
            let ended =
              apply_computation_lem opcodes precompiles fuel msg origin s2 able.configured lt in
            let kept = λ (c : state.Snapshot) (s0 : S) (o : state.IsOpen c s0 s2).
              Left-some c s0
                (apply_computation-Left state c s0 opcodes precompiles able.each able.contracts fuel
                  msg origin s2 o)
                ended.runs in
            rw ended.runs
              (closed ended.result ended.state (kept snap s h) (λ c s0 o. kept c s0 (k c s0 o)))

    -- With fuel above the gas of the message, and opcodes and precompiled contracts that take gas and
    -- leave the open snapshots of the state, applying a message that creates a contract comes to a
    -- result, and if that is a computation with an error, be it from running its code or from storing
    -- the code it gives, the accounts of the state are as they were before.
    pub apply_create_message_lem :
        (fuel : ℕ) (msg : Message) (origin : Address) (s : S)
        → msg.gas < fuel
        → Created s (apply_create_message state opcodes precompiles fuel msg origin s)
    unfolding apply_create_message
    apply_create_message_lem fuel msg origin s lt =
        counted (state.increment_nonce a s1).0 (state.increment_nonce a s1).1
          (state.increment_nonce-IsOpen snap s s1 a (state.snapshot-IsOpen s))
      where
        a : Address
        a = storage_address msg

        snap : state.Snapshot
        snap = (state.snapshot s).0

        s1 : S
        s1 = (state.snapshot s).1

        created :
            (r : Result Tree) (u : S)
            → state.IsOpen snap s u
            → Created s
                (elim r [ err e ↦ some (err e, u) | ok t ↦ some (create_from state snap msg t u) ])
        created (err e) u h = raised-Created s e u
        created (ok t) u h = record {
          result = (create_from state snap msg t u).0;
          final = (create_from state snap msg t u).1;
          runs = refl;
          undone = create_from-Undone state snap s msg t u h;
        }

        checked :
            (r : Result ⊤) (s2 : S)
            → state.IsOpen snap s s2
            → Created s (elim r [
              | err e ↦ some (err e, s2)
              | ok _ ↦ elim (apply_message state opcodes precompiles fuel msg origin s2) [
                | none ↦ none
                | some (computation, s3) ↦ elim computation [
                  | err e ↦ some (err e, s3)
                  | ok t ↦ some (create_from state snap msg t s3)
                ]
              ]
            ])
        checked (err e) s2 h = raised-Created s e s2
        checked (ok _) s2 h =
            let applied = apply_message_lem fuel msg origin s2 lt in
            rw applied.runs (created applied.result applied.final (applied.keeps snap s h))

        counted :
            (r : Result ⊤) (s2 : S)
            → state.IsOpen snap s s2
            → Created s (elim r [
              | err e ↦ some (err e, s2)
              | ok _ ↦ elim (validate_create_message msg) [
                | err e ↦ some (err e, s2)
                | ok _ ↦ elim (apply_message state opcodes precompiles fuel msg origin s2) [
                  | none ↦ none
                  | some (computation, s3) ↦ elim computation [
                    | err e ↦ some (err e, s3)
                    | ok t ↦ some (create_from state snap msg t s3)
                  ]
                ]
              ]
            ])
        counted (err e) s2 h = raised-Created s e s2
        counted (ok _) s2 h = checked (validate_create_message msg) s2 h
