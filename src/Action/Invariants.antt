-- ===== src/Action/Invariants.antt =====
-- Actions that keep a property of the state, whatever they return.
use drafter.Base.{Bool, true, false, List, [], ◌∷◌, if◌then◌else◌, Bool-cases, inl, inr}
use drafter.Errors.{GoError, failed}
use drafter.Script.{Oracle}
use drafter.Action.{
  World, Action, ◌⨾◌, done, set_state, by_state, under, call, doing, dropped, each, ignoring,
  deferring,
}

module _ {C S : Type 0} (P : S → Type 0) where
  pub record Keeps (a : Action C S) : Type 0 where
    pub kept : (w : World C S) → P w.state → P (a w).1.state

  pub Keeps-done : Keeps done
  unfolding done
  Keeps-done = record { kept = λ w p. p }

  pub Keeps-set_state : (f : S → S) → ((s : S) → P s → P (f s)) → Keeps (set_state f)
  unfolding set_state
  Keeps-set_state f h = record { kept = λ w p. h w.state p }

  pub Keeps-by_state : {f : S → Action C S} → ((s : S) → Keeps (f s)) → Keeps (by_state f)
  unfolding by_state
  Keeps-by_state h = record { kept = λ w p. (h w.state).kept w p }

  -- A branch on a test.
  pub Keeps-if : (b : Bool) {x y : Action C S} → Keeps x → Keeps y → Keeps (if b then x else y)
  Keeps-if true x y = x
  Keeps-if false x y = y

  seq_kept :
      {a b : Action C S} → Keeps a → Keeps b → (w : World C S) → P w.state → P ((a ⨾ b) w).1.state
  unfolding ◌⨾◌
  seq_kept {a} {b} x y w p = elim (Bool-cases (failed (a w).0)) [
    | inl bad ↦ rw bad (x.kept w p)
    | inr good ↦ rw good (y.kept (a w).1 (x.kept w p))
  ]

  pub Keeps-seq : {a b : Action C S} → Keeps a → Keeps b → Keeps (a ⨾ b)
  Keeps-seq x y = record { kept = seq_kept x y }

  under_kept :
      {a : Action C S} (sentinel : GoError)
      → Keeps a
      → (w : World C S) → P w.state
      → P (under sentinel a w).1.state
  unfolding under
  under_kept {a} sentinel x w p = elim (Bool-cases (failed (a w).0)) [
    | inl bad ↦ rw bad (x.kept w p)
    | inr good ↦ rw good (x.kept w p)
  ]

  pub Keeps-under : {a : Action C S} (sentinel : GoError) → Keeps a → Keeps (under sentinel a)
  Keeps-under sentinel x = record { kept = under_kept sentinel x }

  pub Keeps-ignoring : {a : Action C S} → Keeps a → Keeps (ignoring a)
  unfolding ignoring
  Keeps-ignoring x = record { kept = λ w p. x.kept w p }

  pub Keeps-deferring : {a clean : Action C S} → Keeps clean → Keeps a → Keeps (deferring clean a)
  unfolding deferring
  Keeps-deferring {a} x y = record { kept = λ w p. x.kept (a w).1 (y.kept w p) }

  module _ (reply : Oracle C) where
    pub Keeps-dropped : (c : C) → Keeps (dropped reply c)
    unfolding dropped
    Keeps-dropped c = record { kept = λ w p. p }

    doing_kept :
        (c : C) (sentinel : GoError) (good bad : S → S)
        → ((s : S) → P s → P (good s))
        → ((s : S) → P s → P (bad s))
        → (w : World C S) → P w.state
        → P (doing reply c sentinel good bad w).1.state
    unfolding doing
    doing_kept c sentinel good bad g b w p = elim (Bool-cases (failed (reply w.calls c))) [
      | inl fails ↦ rw fails (b w.state p)
      | inr succeeds ↦ rw succeeds (g w.state p)
    ]

    pub Keeps-doing :
        (c : C) (sentinel : GoError) (good bad : S → S)
        → ((s : S) → P s → P (good s))
        → ((s : S) → P s → P (bad s))
        → Keeps (doing reply c sentinel good bad)
    Keeps-doing c sentinel good bad g b = record { kept = doing_kept c sentinel good bad g b }

    pub Keeps-call : (c : C) (sentinel : GoError) → Keeps (call reply c sentinel)
    Keeps-call c sentinel = Keeps-doing c sentinel (λ s. s) (λ s. s) (λ s p. p) (λ s p. p)

    pub Keeps-each :
        {A : Type 0} (f : A → C) (steps : List (A × GoError)) → Keeps (each reply f steps)
    unfolding each
    Keeps-each f [] = Keeps-done
    Keeps-each f ((a, sentinel) ∷ rest) = Keeps-seq (Keeps-call (f a) sentinel) (Keeps-each f rest)
