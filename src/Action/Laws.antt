-- ===== src/Action/Laws.antt =====
-- Which calls an action that returns nil has made, of those that a test picks.
use mathlib.Core.List.{append_assoc, append-nil, reverse-cons}
use drafter.Base.{
  Bool, true, false, not, ◌&&◌, List, [], ◌∷◌, ◌++◌, map, reverse, if◌then◌else◌, ◌≡◌, refl, arith,
  ap, ◌∙◌, sym, Bool-cases, subst, inl, inr,
}
use drafter.Errors.{GoError, failed, failed-join}
use drafter.Script.{Log, Oracle}
use drafter.Action.{
  World, Action, ◌⨾◌, done, set_state, by_state, under, on_failure, deferring, call, doing, dropped,
  tested, each, making,
}

module _ {C : Type 0} (p : C → Bool) where
  -- The calls of a test that have succeeded, newest first.
  abbrev pub milestones : Log C → List C
  milestones [] = []
  milestones ((c, e) ∷ log) = if p c && not (failed e) then c ∷ milestones log else milestones log

  module _ {S : Type 0} where
    -- An action that returns nil has reached these, newest first, and no other.
    pub record Reaches (a : Action C S) (t : List C) : Type 0 where
      pub reached :
          (w : World C S)
          → failed (a w).0 ≡ false
          → milestones (a w).1.calls ≡ t ++ milestones w.calls

    -- An action that reaches none, whatever it returns.
    pub record Quiet (a : Action C S) : Type 0 where
      pub unreached : (w : World C S) → milestones (a w).1.calls ≡ milestones w.calls

    pub Reaches-Quiet : {a : Action C S} → Quiet a → Reaches a []
    Reaches-Quiet q = record { reached = λ w h. q.unreached w }

    pub Reaches-done : Reaches done []
    unfolding done
    Reaches-done = record { reached = λ w h. refl }

    pub Reaches-set_state : (f : S → S) → Reaches (set_state f) []
    unfolding set_state
    Reaches-set_state f = record { reached = λ w h. refl }

    pub Reaches-by_state :
        {f : S → Action C S} {t : List C} → ((s : S) → Reaches (f s) t) → Reaches (by_state f) t
    unfolding by_state
    Reaches-by_state x = record { reached = λ w h. (x w.state).reached w h }

    seq_reached :
        {a b : Action C S} {t u : List C}
        → Reaches a t
        → Reaches b u
        → (w : World C S) → failed ((a ⨾ b) w).0 ≡ false
        → milestones ((a ⨾ b) w).1.calls ≡ (u ++ t) ++ milestones w.calls
    unfolding ◌⨾◌
    seq_reached {a} {b} {t} {u} x y w h = elim (Bool-cases (failed (a w).0)) [
      | inl bad ↦ absurd (ground (arith, bad, h))
      | inr good ↦
          rw (good, append_assoc u t (milestones w.calls))
            (y.reached (a w).1 (ground (arith, good, h)) ∙ ap (λ l. u ++ l) (x.reached w good))
    ]

    pub Reaches-seq :
        {a b : Action C S} {t u : List C} → Reaches a t → Reaches b u → Reaches (a ⨾ b) (u ++ t)
    Reaches-seq x y = record { reached = seq_reached x y }

    -- Behind an action that reaches nothing.
    pub Reaches-skip :
        {a b : Action C S} {u : List C} → Reaches a [] → Reaches b u → Reaches (a ⨾ b) u
    Reaches-skip {u} x y = subst (Reaches _) (append-nil u) (Reaches-seq x y)

    pub Reaches-under :
        {a : Action C S} {t : List C} (sentinel : GoError)
        → Reaches a t
        → Reaches (under sentinel a) t
    unfolding under
    Reaches-under {a} {t} sentinel x = record {
      reached = λ w h. ground (arith, x.reached w, failed-join sentinel (a w).0);
    }

    pub Reaches-on_failure :
        {a : Action C S} {t : List C} (clean : Action C S)
        → Reaches a t
        → Reaches (on_failure a clean) t
    unfolding on_failure
    Reaches-on_failure {a} clean x = record { reached = λ w h. ground (arith, x.reached w) }

    pub Reaches-deferring :
        {a clean : Action C S} {t : List C}
        → Quiet clean
        → Reaches a t
        → Reaches (deferring clean a) t
    unfolding deferring
    Reaches-deferring {a} q x = record { reached = λ w h. q.unreached (a w).1 ∙ x.reached w h }

    pub Quiet-seq : {a b : Action C S} → Quiet a → Quiet b → Quiet (a ⨾ b)
    unfolding ◌⨾◌
    Quiet-seq {a} {b} x y = record {
      unreached = λ w. ground (arith, x.unreached w, y.unreached (a w).1);
    }

    module _ (reply : Oracle C) where
      pub Reaches-doing :
          (c : C) (sentinel : GoError) (good bad : S → S)
          → Reaches (doing reply c sentinel good bad) (if p c then c ∷ [] else [])
      unfolding doing
      Reaches-doing c sentinel good bad = record {
        reached = λ w h. ground (arith, failed-join sentinel (reply w.calls c));
      }

      pub Quiet-dropped : (c : C) → p c ≡ false → Quiet (dropped reply c)
      unfolding dropped
      Quiet-dropped c h = record { unreached = λ w. ground arith }

      pub Quiet-tested :
          (c : C) (sentinel : GoError) → p c ≡ false → Quiet (tested reply c sentinel)
      unfolding tested
      Quiet-tested c sentinel h = record { unreached = λ w. ground arith }

      pub Quiet-doing :
          (c : C) (sentinel : GoError) (good bad : S → S)
          → p c ≡ false
          → Quiet (doing reply c sentinel good bad)
      unfolding doing
      Quiet-doing c sentinel good bad h = record { unreached = λ w. ground arith }

      -- Calls that the test picks, made one after the other.
      pub Reaches-each :
          {A : Type 0} (f : A → C)
          → ((a : A) → p (f a) ≡ true)
          → (steps : List (A × GoError))
          → Reaches (each reply f steps) (reverse (map (λ (s : A × GoError). f s.0) steps))
      unfolding each
      Reaches-each f picked [] = Reaches-done
      Reaches-each {A} f picked ((a, sentinel) ∷ rest) =
          subst (Reaches _) (sym (reverse-cons (f a) (map (λ (s : A × GoError). f s.0) rest))) (
            Reaches-seq
              (subst (λ b. Reaches (call reply (f a) sentinel) (if b then f a ∷ [] else []))
                (picked a) (Reaches-doing (f a) sentinel (λ s. s) (λ s. s)))
              (Reaches-each f picked rest))

-- An action that never returns nil, for both what is reached and what is not.
module _ {C S : Type 0} (p : C → Bool) where
  pub Reaches-never :
      {a : Action C S} (t : List C) → ((w : World C S) → failed (a w).0 ≡ true) → Reaches p a t
  Reaches-never t h = record { reached = λ w e. absurd (ground (arith, h w, e)) }

  -- A branch on a test.
  pub Reaches-if :
      (b : Bool) {x y : Action C S} {t : List C}
      → Reaches p x t
      → Reaches p y t
      → Reaches p (if b then x else y) t
  Reaches-if true x y = x
  Reaches-if false x y = y

-- What an action on a state of its own reaches.
module _ {C S T : Type 0} (p : C → Bool) where
  pub Reaches-making :
      {a : Action C T} {t : List C} (first : T) (put : T → S → S)
      → Reaches p a t
      → Reaches p (making first put a) t
  unfolding making
  Reaches-making first put x = record {
    reached = λ w h. x.reached (record { calls = w.calls; state = first }) h;
  }
