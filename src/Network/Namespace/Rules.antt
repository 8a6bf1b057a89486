-- ===== src/Network/Namespace/Rules.antt =====
-- What a namespace leaves behind in the rule tables and the routes of the host and of itself.
use drafter.Base.{
  ℕ, ◌+◌, ◌*◌, Bool, true, false, [], ◌∷◌, String, ◌≡◌, refl, arith, count, if◌then◌else◌, ap, ◌∙◌,
}
use drafter.Errors.{failed}
use mathlib.Core.Path.{ap₂}
use drafter.Script.{Log, Oracle}
use drafter.Script.Laws.{
  succeeded, attempted, defers_none, noted, marks-run_steps, succeeded-run_steps,
}
use drafter.Network.Namespace.{
  Namespace, NetCall, NsHandle, original, named, close_handle, set_ns, Rule, append_rule,
  delete_rule, route_add, route_del, open_namespace, close_namespace, open_steps, close_steps,
  incoming_dnat_rule, incoming_masquerade_rule, assign,
}

-- The calls that append, or delete, a rule of a kind.
abbrev pub appends : (Rule → Bool) → NetCall → Bool
appends p (append_rule r) = p r
appends p _ = false

abbrev pub deletes : (Rule → Bool) → NetCall → Bool
deletes p (delete_rule r) = p r
deletes p _ = false

-- The rules that `Open` and `Close` both append.
abbrev pub incoming : (Rule → Bool) → Namespace → ℕ
incoming p n =
    if n.allow_incoming_traffic
    then count p (incoming_dnat_rule n ∷ incoming_masquerade_rule n ∷ [])
    else 0

abbrev pub Route : Type 0
Route = String × ℕ × String

-- The calls that add, or delete, a route of a kind.
abbrev pub adds_route : (Route → Bool) → NetCall → Bool
adds_route p (route_add dst mask gw) = p (dst, mask, gw)
adds_route p _ = false

abbrev pub deletes_route : (Route → Bool) → NetCall → Bool
deletes_route p (route_del dst mask gw) = p (dst, mask, gw)
deletes_route p _ = false

-- The namespace as a successful `Open` leaves it.
abbrev opened : Namespace → Namespace
opened n = record n { parsed_default_address = true; parsed_external_addr = true }

noted-open : (n : Namespace) → assign (noted (open_steps n) []) n ≡ opened n
unfolding open_steps
noted-open n = ground arith

module _ (p : Rule → Bool) (r : Route → Bool) (n : Namespace) where
  attempted-open :
      attempted (appends p) (open_steps n)
      ≡ attempted (deletes p) (close_steps (opened n)) + incoming p n
  unfolding open_steps close_steps
  attempted-open = ground arith

  attempted-close : attempted (appends p) (close_steps (opened n)) ≡ incoming p n
  unfolding close_steps
  attempted-close = ground arith

  attempted-open_deletes :
      (attempted (deletes p) (open_steps n) ≡ 0) × (attempted (deletes_route r) (open_steps n) ≡ 0)
  unfolding open_steps
  attempted-open_deletes = ground arith

  attempted-open_routes :
      attempted (adds_route r) (open_steps n) ≡ attempted (deletes_route r) (close_steps (opened n))
  unfolding open_steps close_steps
  attempted-open_routes = ground arith

  attempted-close_routes : attempted (adds_route r) (close_steps (opened n)) ≡ 0
  unfolding close_steps
  attempted-close_routes = ground arith

module _ (q : NetCall → Bool)
    (defers : (h : NsHandle) → (q (close_handle h) ≡ false) × (q (set_ns h) ≡ false))
    (n : Namespace) where
  defers_none-open : defers_none q (open_steps n) ≡ true
  unfolding open_steps
  defers_none-open = ground (arith, defers original, defers named)

  defers_none-close : defers_none q (close_steps n) ≡ true
  unfolding close_steps
  defers_none-close = ground (arith, defers original, defers named)

module _ (reply : Oracle NetCall) (n : Namespace) (log : Log NetCall)
    (opened_ok : failed (open_namespace reply n log).0 ≡ false) where
  -- A successful `Open` leaves both addresses set.
  open_namespace-opened : (open_namespace reply n log).1 ≡ opened n
  unfolding open_namespace
  open_namespace-opened =
      rw (marks-run_steps reply (open_steps n) [] [] log opened_ok) (noted-open n)

  succeeded-open :
      (q : NetCall → Bool)
      → ((h : NsHandle) → (q (close_handle h) ≡ false) × (q (set_ns h) ≡ false))
      → succeeded q (open_namespace reply n log).2 ≡ attempted q (open_steps n) + succeeded q log
  unfolding open_namespace
  succeeded-open q d =
      succeeded-run_steps q reply (open_steps n) [] [] log refl (defers_none-open q d n) opened_ok

module _ (reply : Oracle NetCall) (m : Namespace) (log : Log NetCall)
    (closed_ok : failed (close_namespace reply m log).0 ≡ false) where
  succeeded-close :
      (q : NetCall → Bool)
      → ((h : NsHandle) → (q (close_handle h) ≡ false) × (q (set_ns h) ≡ false))
      → succeeded q (close_namespace reply m log).1 ≡ attempted q (close_steps m) + succeeded q log
  unfolding close_namespace
  succeeded-close q d =
      succeeded-run_steps q reply (close_steps m) [] [] log refl (defers_none-close q d m) closed_ok

module _ (reply : Oracle NetCall) (n : Namespace) (log : Log NetCall)
    (opened_ok : failed (open_namespace reply n log).0 ≡ false)
    (closed_ok : failed
        (close_namespace reply (open_namespace reply n log).1 (open_namespace reply n log).2).0
      ≡ false) where
  -- The log after a successful `Open` and a successful `Close` of the namespace that it left.
  abbrev after_close : Log NetCall
  after_close =
      (close_namespace reply (open_namespace reply n log).1 (open_namespace reply n log).2).1

  succeeded-after :
      (q : NetCall → Bool)
      → ((h : NsHandle) → (q (close_handle h) ≡ false) × (q (set_ns h) ≡ false))
      → succeeded q after_close
        ≡ attempted q (close_steps (opened n)) + (attempted q (open_steps n) + succeeded q log)
  succeeded-after q d =
      succeeded-close reply _ _ closed_ok q d
      ∙ ap₂ ◌+◌
          (ap (λ m. attempted q (close_steps m)) (open_namespace-opened reply n log opened_ok))
          (succeeded-open reply n log opened_ok q d)

  -- After an `Open` and a `Close` that both return nil, each kind of rule (any test on rules) was
  -- deleted as often as it was appended, but for the two rules for incoming traffic: where that is
  -- allowed, `Close` appends them once more, and they are never deleted.
  pub open-close_rules :
      (p : Rule → Bool)
      → succeeded (appends p) after_close + succeeded (deletes p) log
        ≡ succeeded (deletes p) after_close + succeeded (appends p) log + 2 * incoming p n
  open-close_rules p = omega (
    arith,
    succeeded-after (appends p) (λ h. (refl, refl)),
    succeeded-after (deletes p) (λ h. (refl, refl)),
    attempted-open p (λ r. false) n,
    attempted-close p (λ r. false) n,
    (attempted-open_deletes p (λ r. false) n).0,
  )

  -- After an `Open` and a `Close` that both return nil, each kind of route was deleted as often as
  -- it was added.
  pub open-close_routes :
      (r : Route → Bool)
      → succeeded (adds_route r) after_close + succeeded (deletes_route r) log
        ≡ succeeded (deletes_route r) after_close + succeeded (adds_route r) log
  open-close_routes r = omega (
    arith,
    succeeded-after (adds_route r) (λ h. (refl, refl)),
    succeeded-after (deletes_route r) (λ h. (refl, refl)),
    attempted-open_routes (λ p. false) r n,
    attempted-close_routes (λ p. false) r n,
    (attempted-open_deletes (λ p. false) r n).1,
  )
