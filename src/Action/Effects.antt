-- ===== src/Action/Effects.antt =====
-- What an action that returns nil has made of the state.
use drafter.Base.{
  Bool, true, false, List, [], ◌∷◌, if◌then◌else◌, ◌≡◌, refl, arith, ap, ◌∙◌, Bool-cases, inl, inr,
}
use drafter.Errors.{GoError, failed, failed-join}
use drafter.Script.{Oracle}
use drafter.Action.{
  World, Action, ◌⨾◌, done, set_state, by_state, under, on_failure, deferring, doing, dropped,
  tested, each, making,
}

module _ {C S : Type 0} where
  -- An action that returns nil leaves this of the state that it finds.
  pub record Leaves (a : Action C S) (f : S → S) : Type 0 where
    pub left : (w : World C S) → failed (a w).0 ≡ false → (a w).1.state ≡ f w.state

  -- An action that leaves the state as it is, whatever it returns.
  pub record Still (a : Action C S) : Type 0 where
    pub unchanged : (w : World C S) → (a w).1.state ≡ w.state

  pub Still-done : Still done
  unfolding done
  Still-done = record { unchanged = λ w. refl }

  pub Leaves-Still : {a : Action C S} → Still a → Leaves a (λ s. s)
  Leaves-Still x = record { left = λ w h. x.unchanged w }

  pub Leaves-done : Leaves done (λ s. s)
  unfolding done
  Leaves-done = record { left = λ w h. refl }

  pub Leaves-set_state : (f : S → S) → Leaves (set_state f) f
  unfolding set_state
  Leaves-set_state f = record { left = λ w h. refl }

  pub Leaves-by_state :
      {f : S → Action C S} {g : S → S → S}
      → ((s : S) → Leaves (f s) (g s))
      → Leaves (by_state f) (λ s. g s s)
  unfolding by_state
  Leaves-by_state x = record { left = λ w h. (x w.state).left w h }

  seq_left :
      {a b : Action C S} {f g : S → S}
      → Leaves a f
      → Leaves b g
      → (w : World C S) → failed ((a ⨾ b) w).0 ≡ false
      → ((a ⨾ b) w).1.state ≡ g (f w.state)
  unfolding ◌⨾◌
  seq_left {a} {b} {f} {g} x y w h = elim (Bool-cases (failed (a w).0)) [
    | inl bad ↦ absurd (ground (arith, bad, h))
    | inr good ↦ rw good (y.left (a w).1 (ground (arith, good, h)) ∙ ap g (x.left w good))
  ]

  pub Leaves-seq :
      {a b : Action C S} {f g : S → S} → Leaves a f → Leaves b g → Leaves (a ⨾ b) (λ s. g (f s))
  Leaves-seq x y = record { left = seq_left x y }

  pub Leaves-under :
      {a : Action C S} {f : S → S} (sentinel : GoError) → Leaves a f → Leaves (under sentinel a) f
  unfolding under
  Leaves-under {a} sentinel x = record {
    left = λ w h. ground (arith, x.left w, failed-join sentinel (a w).0);
  }

  pub Leaves-on_failure :
      {a : Action C S} {f : S → S} (clean : Action C S) → Leaves a f → Leaves (on_failure a clean) f
  unfolding on_failure
  Leaves-on_failure {a} clean x = record { left = λ w h. ground (arith, x.left w) }

  pub Leaves-deferring :
      {a clean : Action C S} {f : S → S} → Still clean → Leaves a f → Leaves (deferring clean a) f
  unfolding deferring
  Leaves-deferring {a} q x = record { left = λ w h. q.unchanged (a w).1 ∙ x.left w h }

  module _ (reply : Oracle C) where
    pub Leaves-doing :
        (c : C) (sentinel : GoError) (good bad : S → S)
        → Leaves (doing reply c sentinel good bad) good
    unfolding doing
    Leaves-doing c sentinel good bad = record {
      left = λ w h. ground (arith, failed-join sentinel (reply w.calls c));
    }

    pub Still-dropped : (c : C) → Still (dropped reply c)
    unfolding dropped
    Still-dropped c = record { unchanged = λ w. refl }

    pub Leaves-tested : (c : C) (sentinel : GoError) → Leaves (tested reply c sentinel) (λ s. s)
    unfolding tested
    Leaves-tested c sentinel = record { left = λ w h. refl }

    pub Leaves-each :
        {A : Type 0} (f : A → C) (steps : List (A × GoError)) → Leaves (each reply f steps) (λ s. s)
    unfolding each
    Leaves-each f [] = Leaves-done
    Leaves-each f ((a, sentinel) ∷ rest) =
        Leaves-seq (Leaves-doing (f a) sentinel _ _) (Leaves-each f rest)

module _ {C S : Type 0} where
  -- An action that never returns nil.
  pub Leaves-never :
      {a : Action C S} (f : S → S) → ((w : World C S) → failed (a w).0 ≡ true) → Leaves a f
  Leaves-never f h = record { left = λ w e. absurd (ground (arith, h w, e)) }

  -- A branch on a test.
  pub Leaves-if :
      (b : Bool) {x y : Action C S} {f : S → S}
      → Leaves x f
      → Leaves y f
      → Leaves (if b then x else y) f
  Leaves-if true x y = x
  Leaves-if false x y = y

  -- A branch on a test, with what each branch leaves.
  pub Leaves-branch :
      (b : Bool) {x y : Action C S} {f g : S → S}
      → Leaves x f
      → Leaves y g
      → Leaves (if b then x else y) (λ s. if b then f s else g s)
  Leaves-branch true x y = x
  Leaves-branch false x y = y

-- What is made with a state of its own, put into the state outside.
module _ {C S T : Type 0} where
  pub Leaves-making :
      {a : Action C T} {f : T → T} (first : T) (put : T → S → S)
      → Leaves a f
      → Leaves (making first put a) (put (f first))
  unfolding making
  Leaves-making first put x = record {
    left = λ w h. ap (λ t. put t w.state) (x.left (record { calls = w.calls; state = first }) h);
  }
