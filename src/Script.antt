-- ===== src/Script.antt =====
-- A Go function that makes one fallible call after another: `if err := call; err != nil { return
-- errors.Join(sentinel, err) }`, with its `defer` statements. What a call returns is an argument,
-- and may depend on all the calls before it and their results.
pub mod Laws
use drafter.Base.{Bool, List, [], ◌∷◌, if◌then◌else◌}
use drafter.Errors.{GoError, nil, join, failed}

pub data Step (C M : Type 0) : Type 0 where
  -- a call, and the sentinel that its error is joined to, or nil where it comes back bare
  attempt : C → GoError → Step C M
  -- an attempt with a call that cleans up behind its failure, whose own error is dropped
  guarded : C → GoError → C → Step C M
  -- `defer`, of a call whose error is dropped
  later : C → Step C M
  -- a note of what was reached: an assignment, or a clean-up that is handed to the caller
  mark : M → Step C M

-- The calls made so far and what they returned, newest first.
abbrev pub Log : Type 0 → Type 0
Log C = List (C × GoError)

abbrev pub Oracle : Type 0 → Type 0
Oracle C = Log C → C → GoError

pub record Done (C M : Type 0) : Type 0 where
  pub error : GoError
  -- newest first
  pub marks : List M
  pub calls : Log C

module _ {C : Type 0} (reply : Oracle C) where
  -- A call, whatever it returns.
  abbrev pub called : C → Log C → Log C
  called c log = (c, reply log c) ∷ log

  -- The deferred calls, the latest first.
  unfoldable pub run_deferred : List C → Log C → Log C
  run_deferred [] log = log
  run_deferred (c ∷ cs) log = run_deferred cs (called c log)

  -- The steps, up to the first call that fails; then what was deferred until there.
  unfoldable pub run_steps : {M : Type 0} → List (Step C M) → List C → List M → Log C → Done C M
  run_steps [] deferred marks log = record {
    error = nil;
    marks = marks;
    calls = run_deferred deferred log;
  }
  run_steps (Step.later c ∷ rest) deferred marks log = run_steps rest (c ∷ deferred) marks log
  run_steps (Step.mark m ∷ rest) deferred marks log = run_steps rest deferred (m ∷ marks) log
  run_steps (Step.attempt c sentinel ∷ rest) deferred marks log =
      let go_on = run_steps rest deferred marks (called c log) in
      if failed (reply log c)
      then record {
        error = join sentinel (reply log c);
        marks = marks;
        calls = run_deferred deferred (called c log);
      }
      else go_on
  run_steps (Step.guarded c sentinel clean ∷ rest) deferred marks log =
      let go_on = run_steps rest deferred marks (called c log) in
      if failed (reply log c)
      then record {
        error = join sentinel (reply log c);
        marks = marks;
        calls = run_deferred deferred (called clean (called c log));
      }
      else go_on

  abbrev pub run_script : {M : Type 0} → List (Step C M) → Log C → Done C M
  run_script steps log = run_steps steps [] [] log
