-- ===== src/Script/Laws.antt =====
-- What a script that returns nil, or any error, has done.
use drafter.Base.{
  ℕ, ◌+◌, Bool, true, false, not, ◌&&◌, List, [], ◌∷◌, ◌≡◌, refl, arith, count, if◌then◌else◌,
}
use drafter.Errors.{failed, failed-join}
use drafter.Script.{Step, Log, Oracle, run_deferred, run_steps, called}

-- Whether two tests have the same result.
abbrev pub same : Bool → Bool → Bool
same true b = b
same false b = not b

pub same_refl : (b : Bool) → same b b ≡ true
same_refl true = refl
same_refl false = refl

module _ {C : Type 0} (p : C → Bool) where
  -- How many calls that pass a test have succeeded.
  abbrev pub succeeded : Log C → ℕ
  succeeded log = count (λ e. p e.0 && not (failed e.1)) log

  abbrev pub attempted : {M : Type 0} → List (Step C M) → ℕ
  attempted [] = 0
  attempted (Step.attempt c s ∷ rest) = if p c then attempted rest + 1 else attempted rest
  attempted (Step.guarded c s d ∷ rest) = if p c then attempted rest + 1 else attempted rest
  attempted (Step.later c ∷ rest) = attempted rest
  attempted (Step.mark m ∷ rest) = attempted rest

  -- No deferred call passes the test.
  abbrev pub defers_none : {M : Type 0} → List (Step C M) → Bool
  defers_none [] = true
  defers_none (Step.attempt c s ∷ rest) = defers_none rest
  defers_none (Step.guarded c s d ∷ rest) = defers_none rest
  defers_none (Step.later c ∷ rest) = if p c then false else defers_none rest
  defers_none (Step.mark m ∷ rest) = defers_none rest

  abbrev pub none_of : List C → Bool
  none_of [] = true
  none_of (c ∷ cs) = if p c then false else none_of cs

  module _ (reply : Oracle C) where
    pub succeeded-run_deferred :
        (cs : List C) (log : Log C)
        → none_of cs ≡ true
        → succeeded (run_deferred reply cs log) ≡ succeeded log
    unfolding run_deferred
    succeeded-run_deferred [] log h = refl
    succeeded-run_deferred (c ∷ cs) log h =
        ground (arith, succeeded-run_deferred cs (called reply c log))

    -- If the script returns nil, every attempt was made and has succeeded.
    pub succeeded-run_steps :
        {M : Type 0} (steps : List (Step C M)) (deferred : List C) (marks : List M) (log : Log C)
        → none_of deferred ≡ true
        → defers_none steps ≡ true
        → failed (run_steps reply steps deferred marks log).error ≡ false
        → succeeded (run_steps reply steps deferred marks log).calls
          ≡ attempted steps + succeeded log
    unfolding run_steps
    succeeded-run_steps [] deferred marks log d h e =
        ground (arith, succeeded-run_deferred deferred log d)
    succeeded-run_steps (Step.later c ∷ rest) deferred marks log d h e =
        succeeded-run_steps rest (c ∷ deferred) marks log (ground arith) (ground arith) e
    succeeded-run_steps (Step.mark m ∷ rest) deferred marks log d h e =
        succeeded-run_steps rest deferred (m ∷ marks) log d h e
    succeeded-run_steps (Step.guarded c s clean ∷ rest) deferred marks log d h e = ground (
      arith,
      failed-join s (reply log c),
      succeeded-run_steps rest deferred marks (called reply c log) d h,
    )
    succeeded-run_steps (Step.attempt c s ∷ rest) deferred marks log d h e = ground (
      arith,
      failed-join s (reply log c),
      succeeded-run_steps rest deferred marks (called reply c log) d h,
    )

module _ {C M : Type 0} (p : C → Bool) (q : M → Bool) where
  -- Each attempt that passes the one test is followed at once by a mark that passes the other, and no
  -- other call or mark passes: `owed` is whether such an attempt was just made.
  abbrev pub balanced : Bool → List (Step C M) → Bool
  balanced owed [] = not owed
  balanced owed (Step.attempt c s ∷ rest) = if owed then false else balanced (p c) rest
  balanced owed (Step.guarded c s d ∷ rest) =
      if owed then false else (if p c then false else (if p d then false else balanced false rest))
  balanced owed (Step.later c ∷ rest) =
      if owed then false else (if p c then false else balanced false rest)
  balanced owed (Step.mark m ∷ rest) = if same owed (q m) then balanced false rest else false

  -- Such a script, however it ends, leaves a mark for each attempt that has succeeded.
  pub balanced-run_steps :
      (reply : Oracle C) (owed : Bool) (steps : List (Step C M)) (deferred : List C)
      (marks : List M) (log : Log C)
      → none_of p deferred ≡ true
      → balanced owed steps ≡ true
      → succeeded p log ≡ count q marks + (if owed then 1 else 0)
      → succeeded p (run_steps reply steps deferred marks log).calls
        ≡ count q (run_steps reply steps deferred marks log).marks
  unfolding run_steps
  balanced-run_steps reply owed [] deferred marks log d b h =
      ground (arith, succeeded-run_deferred p reply deferred log d)
  balanced-run_steps reply owed (Step.later c ∷ rest) deferred marks log d b h =
      balanced-run_steps reply false rest (c ∷ deferred) marks log (ground arith) (ground arith)
        (ground arith)
  balanced-run_steps reply owed (Step.mark m ∷ rest) deferred marks log d b h =
      balanced-run_steps reply false rest deferred (m ∷ marks) log d (ground arith) (ground arith)
  balanced-run_steps reply owed (Step.attempt c s ∷ rest) deferred marks log d b h = ground (
    arith,
    balanced-run_steps reply (p c) rest deferred marks (called reply c log) d,
    succeeded-run_deferred p reply deferred (called reply c log) d,
  )
  balanced-run_steps reply owed (Step.guarded c s clean ∷ rest) deferred marks log d b h = ground (
    arith,
    balanced-run_steps reply false rest deferred marks (called reply c log) d,
    succeeded-run_deferred p reply deferred (called reply clean (called reply c log)) d,
  )

-- The marks of a script that returns nil, onto those before it.
abbrev pub noted : {C M : Type 0} → List (Step C M) → List M → List M
noted [] marks = marks
noted (Step.attempt c s ∷ rest) marks = noted rest marks
noted (Step.guarded c s d ∷ rest) marks = noted rest marks
noted (Step.later c ∷ rest) marks = noted rest marks
noted (Step.mark m ∷ rest) marks = noted rest (m ∷ marks)

pub marks-run_steps :
    {C M : Type 0} (reply : Oracle C) (steps : List (Step C M)) (deferred : List C) (marks : List M)
    (log : Log C)
    → failed (run_steps reply steps deferred marks log).error ≡ false
    → (run_steps reply steps deferred marks log).marks ≡ noted steps marks
unfolding run_steps
marks-run_steps reply [] deferred marks log e = refl
marks-run_steps reply (Step.later c ∷ rest) deferred marks log e =
    marks-run_steps reply rest (c ∷ deferred) marks log e
marks-run_steps reply (Step.mark m ∷ rest) deferred marks log e =
    marks-run_steps reply rest deferred (m ∷ marks) log e
marks-run_steps reply (Step.attempt c s ∷ rest) deferred marks log e = ground (
  arith,
  failed-join s (reply log c),
  marks-run_steps reply rest deferred marks (called reply c log),
)
marks-run_steps reply (Step.guarded c s clean ∷ rest) deferred marks log e = ground (
  arith,
  failed-join s (reply log c),
  marks-run_steps reply rest deferred marks (called reply c log),
)
