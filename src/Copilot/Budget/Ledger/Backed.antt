-- ===== src/Copilot/Budget/Ledger/Backed.antt =====
-- Each call keeps the holds and the open reservations together.
use theokit_plugins.Common.{
  ℕ, suc, ◌<◌, Bool, true, false, some, List, [], ◌∷◌, ◌++◌, find, nat_beq, codes_eq, nat_eq, ◌≡◌,
  refl, subst, ap, ap₂, arith, All, All-append, Option-cases, Bool-cases, inl, inr,
}
use theokit_plugins.Common.Assoc.{get}
use theokit_plugins.Common.Async.{Attempt}
use theokit_plugins.Common.Sort.{Strict-snoc}
use theokit_plugins.Copilot.Name.{budget_name_for}
use theokit_plugins.Copilot.Budget.{
  Sdk, IsNamed, PerRoom, BudgetError, BudgetReservation, Bridge, Name, total, held_for, hold,
  drop_hold, reservation, reserve, release, reconcile,
}
use theokit_plugins.Copilot.Budget.Reserve.{reserve-IsOutcome}
use theokit_plugins.Copilot.Budget.Ledger.{
  open_of, put_back, held_in-hold, held_in-drop_hold, open_of-snoc, set-open_of, IsOnly,
  put_back-same, open_of-put_back,
}
use theokit_plugins.Copilot.Budget.Ledger.Calls.{
  Call, reserve_call, reconcile_call, release_call, Session, settle, call, run_calls, IsBacked,
  below-suc, found-IsOnly, All-put_back, put_back-Strict, release-drops, reconcile-drops,
}

found-All :
    (P : BudgetReservation → Type 0) (p : BudgetReservation → Bool) (rs : List BudgetReservation)
    (r : BudgetReservation)
    → All P rs
    → find p rs ≡ some r
    → P r
found-All P p [] r h e = cc
found-All P p (q ∷ rs) r (k, h) e = elim (Bool-cases (p q)) [
  | inl hit ↦ let here : q ≡ r = ground arith in subst P here k
  | inr miss ↦ found-All P p rs r h (ground arith)
]

module _ {S : Type 0} where
  -- The hold of a settled reservation is dropped.
  dropped-IsBacked :
      (x : Session S) (r : BudgetReservation) (n : Name) (s : S)
      → IsBacked x
      → IsOnly r x.given
      → r.settled ≡ false
      → r.hold_id < x.bridge.next_hold_id
      → budget_name_for r.copilot_id r.room_id ≡ some n
      → IsBacked (record {
        bridge = record x.bridge { holds = drop_hold n r.hold_id x.bridge.holds };
        sdk_state = s;
        given = put_back (record r { settled = true }) x.given;
      })
  dropped-IsBacked x r n s h only fresh lt known = record {
    backed = λ m.
        rw
          (
            held_in-drop_hold n m r.hold_id x.bridge.holds,
            open_of-put_back m r x.given fresh only,
            known,
            h.backed n,
            h.backed m,
          )
          (ground (arith, codes_eq.beq_iff n m));
    ordered = put_back-Strict _ x.given h.ordered;
    below = All-put_back (λ q. q.hold_id < x.bridge.next_hold_id) _ x.given lt h.below;
    named = All-put_back _ (record r { settled = true }) x.given (n, known) h.named;
  }

  -- The hold of a new reservation is added.
  held-IsBacked :
      (x : Session S) (r : BudgetReservation) (n : Name) (s : S)
      → IsBacked x
      → r.settled ≡ false
      → r.hold_id ≡ x.bridge.next_hold_id
      → budget_name_for r.copilot_id r.room_id ≡ some n
      → IsBacked (record {
        bridge = record {
          holds = hold n r.hold_id r.estimated_usd x.bridge.holds;
          next_hold_id = suc x.bridge.next_hold_id;
        };
        sdk_state = s;
        given = x.given ++ r ∷ [];
      })
  held-IsBacked x r n s h fresh new known =
      let below = rw (← new) at h.below in
      record {
        backed = λ m.
            rw
              (
                held_in-hold n m r.hold_id r.estimated_usd x.bridge.holds,
                open_of-snoc m x.given r,
                known,
                fresh,
                h.backed n,
                h.backed m,
                set-open_of n r.hold_id r.estimated_usd x.given below,
              )
              (ground (arith, codes_eq.beq_iff n m));
        ordered = Strict-snoc _ x.given r h.ordered below;
        below =
            All-append _ x.given (r ∷ []) (below-suc x.bridge.next_hold_id x.given h.below)
              (omega (arith, new), tt);
        named = All-append _ x.given (r ∷ []) h.named ((n, known), tt);
      }

-- The start: nothing is held.
abbrev pub opened : {S : Type 0} → S → Session S
opened s = record { bridge = record { holds = []; next_hold_id = 1 }; sdk_state = s; given = [] }

opened-IsBacked : {S : Type 0} (s : S) → IsBacked (opened s)
unfolding open_of get
opened-IsBacked s = record { backed = λ n. refl; ordered = tt; below = tt; named = tt }

module _ {S E : Type 0} (sdk : Sdk S E) (per : PerRoom) (named_sdk : IsNamed sdk) where
  settle-IsBacked :
      (x : Session S) (id : ℕ)
      (f : BudgetReservation
        → (Bridge × S → Attempt (BudgetError E) Unit × (Bridge × S)) × BudgetReservation)
      → ((r : BudgetReservation)
          → r.settled ≡ true
          → (((f r).0 (x.bridge, x.sdk_state)).1.0 ≡ x.bridge) × ((f r).1 ≡ r))
      → ((r : BudgetReservation) (n : Name)
          → r.settled ≡ false
          → budget_name_for r.copilot_id r.room_id ≡ some n
          → (((f r).0 (x.bridge, x.sdk_state)).1.0
              ≡ record x.bridge { holds = drop_hold n r.hold_id x.bridge.holds })
            × ((f r).1 ≡ record r { settled = true }))
      → IsBacked x
      → IsBacked (settle sdk per (find (λ r. nat_beq r.hold_id id) x.given) f x)
  settle-IsBacked x id f done drops h =
      elim (Option-cases (find (λ r. nat_beq r.hold_id id) x.given)) [
        | inl missing ↦ rw missing h
        | inr (r, found) ↦
            let (only, same, (n, known)) = found-IsOnly id x.given r h.ordered h.named found in
            elim (Bool-cases r.settled) [
              | inl settled ↦
                  let (b, back) = done r settled in
                  rw (found, b, back, put_back-same r x.given only)
                    (record {
                      backed = h.backed;
                      ordered = h.ordered;
                      below = h.below;
                      named = h.named;
                    })
              | inr fresh ↦
                  let (b, back) = drops r n fresh known in
                  rw (found, b, back)
                    (dropped-IsBacked x r n _ h only fresh (found-All _ _ x.given r h.below found)
                      known)
            ]
      ]

  call-IsBacked : (x : Session S) (c : Call) → IsBacked x → IsBacked (call sdk per c x)
  unfolding call release reconcile
  call-IsBacked x (reserve_call c r usd) h =
      let (next, outcome) = reserve-IsOutcome sdk per named_sdk c r usd x.bridge x.sdk_state in
      let after = reserve sdk (some per) c r usd (x.bridge, x.sdk_state) in
      elim outcome [
        | inl (e, same, bad) ↦ rw bad (record {
          backed = λ m. rw same (h.backed m);
          ordered = h.ordered;
          below = rw next (below-suc x.bridge.next_hold_id x.given h.below);
          named = h.named;
        })
        | inr (ok, made) ↦
            let whole : after.1.0 ≡ record {
              holds = hold made.handle.name x.bridge.next_hold_id usd x.bridge.holds;
              next_hold_id = suc x.bridge.next_hold_id;
            } =
              ap₂ (λ hs k. record { holds = hs; next_hold_id = k }) made.held next in
            rw (ok, whole)
              (held-IsBacked x (reservation sdk (some per) c r usd x.bridge.next_hold_id)
                made.handle.name _ h refl refl made.named)
      ]
  call-IsBacked x (reconcile_call id actual) h =
      settle-IsBacked x id (λ r. reconcile sdk (some per) r actual) (λ r done. rw done (refl, refl))
        (λ r n fresh known. reconcile-drops sdk per r actual x.bridge x.sdk_state n fresh known) h
  call-IsBacked x (release_call id) h =
      settle-IsBacked x id (λ r. release sdk (some per) r) (λ r done. rw done (refl, refl))
        (λ r n fresh known. release-drops sdk per r x.bridge x.sdk_state n fresh known) h

  run_calls-IsBacked :
      (cs : List Call) (x : Session S) → IsBacked x → IsBacked (run_calls sdk per cs x)
  unfolding run_calls
  run_calls-IsBacked [] x h = h
  run_calls-IsBacked (c ∷ cs) x h = run_calls-IsBacked cs (call sdk per c x) (call-IsBacked x c h)

  -- After any calls, what is held against a budget is the sum of the estimates of its
  -- reservations that are not settled: no settled call leaves anything behind, and settling twice
  -- takes nothing from another.
  pub held_for-run_calls :
      (cs : List Call) (s : S) (n : Name)
      → held_for n (run_calls sdk per cs (opened s)).bridge.holds
        ≡ total (open_of n (run_calls sdk per cs (opened s)).given)
  unfolding held_for
  held_for-run_calls cs s n =
      ap total ((run_calls-IsBacked cs (opened s) (opened-IsBacked s)).backed n)
