-- ===== src/Action.antt =====
-- A Go function whose calls also change a state: what it returns and leaves, by the state that it finds.
-- What a call returns is an argument, and may depend on all the calls before it and their results.
pub mod Laws
pub mod Effects
pub mod Invariants
use drafter.Base.{Bool, List, [], ◌∷◌, if◌then◌else◌}
use drafter.Errors.{GoError, nil, join, failed}
use drafter.Script.{Log, Oracle}

pub record World (C S : Type 0) : Type 0 where
  -- newest first
  pub calls : Log C
  pub state : S

abbrev pub Action : Type 0 → Type 0 → Type 0
Action C S = World C S → GoError × World C S

module _ {C S : Type 0} where
  -- `if err := a(); err != nil { return err }; b()`
  infixr 20 ◌⨾◌
  unfoldable pub ◌⨾◌ : Action C S → Action C S → Action C S
  (a ⨾ b) w = let r = a w in let rest = b r.1 in if failed r.0 then r else rest

  unfoldable pub done : Action C S
  done w = (nil, w)

  -- A write to the state.
  unfoldable pub set_state : (S → S) → Action C S
  set_state f w = (nil, record w { state = f w.state })

  -- The action that the state chooses.
  unfoldable pub by_state : (S → Action C S) → Action C S
  by_state f w = f w.state w

  -- `if err != nil { return errors.Join(sentinel, err) }`
  unfoldable pub under : GoError → Action C S → Action C S
  under sentinel a w = let r = a w in if failed r.0 then (join sentinel r.0, r.1) else r

  -- The first action; if it fails the second too, whose error is dropped.
  unfoldable pub on_failure : Action C S → Action C S → Action C S
  on_failure a clean w = let r = a w in let c = clean r.1 in if failed r.0 then (r.0, c.1) else r

  -- `defer clean()` before the action: its error is dropped.
  unfoldable pub deferring : Action C S → Action C S → Action C S
  deferring clean a w = let r = a w in (r.0, (clean r.1).1)

  -- An action whose error is only logged.
  unfoldable pub ignoring : Action C S → Action C S
  ignoring a w = (nil, (a w).1)

  module _ (reply : Oracle C) where
    abbrev pub asked : C → World C S → World C S
    asked c w = record w { calls = (c, reply w.calls c) ∷ w.calls }

    -- A call, its error joined to a sentinel; what it does to the state if it succeeds and if it fails.
    unfoldable pub doing : C → GoError → (S → S) → (S → S) → Action C S
    doing c sentinel good bad w =
        let e = reply w.calls c in
        if failed e
        then (join sentinel e, record (asked c w) { state = bad w.state })
        else (nil, record (asked c w) { state = good w.state })

    -- A call that leaves the state as it is.
    abbrev pub call : C → GoError → Action C S
    call c sentinel = doing c sentinel (λ s. s) (λ s. s)

    -- A call whose error is dropped.
    unfoldable pub dropped : C → Action C S
    dropped c w = (nil, asked c w)

    -- A test, whose failure is a sentinel alone.
    unfoldable pub tested : C → GoError → Action C S
    tested c sentinel w = (if failed (reply w.calls c) then sentinel else nil, asked c w)

    -- Calls, each with the sentinel of its error, up to the first that fails.
    unfoldable pub each : {A : Type 0} → (A → C) → List (A × GoError) → Action C S
    each f [] = done
    each f ((a, sentinel) ∷ rest) = call (f a) sentinel ⨾ each f rest

-- An action on a state of its own, from a first one on; what it leaves goes into the state outside.
module _ {C S T : Type 0} where
  unfoldable pub making : T → (T → S → S) → Action C T → Action C S
  making first put a w =
      let r = a (record { calls = w.calls; state = first }) in
      (r.0, record { calls = r.1.calls; state = put r.1.state w.state })
