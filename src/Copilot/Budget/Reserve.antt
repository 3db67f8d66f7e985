-- ===== src/Copilot/Budget/Reserve.antt =====
-- What a reservation checks and what it holds.
use theokit_plugins.Common.{
  ℕ, suc, ◌+◌, ◌<◌, ◌≤◌, false, Option, none, some, List, [], ◌∷◌, ltb, ◌≡◌, refl, sym, subst, ap,
  ◌∙◌, arith, All, Option-cases, Bool-cases, ◌⊎◌, inl, inr,
}
use theokit_plugins.Common.Async.{
  Attempt, returned, threw, proceed, Attempt-cases, proceed-returned, proceed-threw,
}
use theokit_plugins.Copilot.Name.{budget_name_for}
use theokit_plugins.Copilot.Budget.{
  Sdk, IsNamed, PerRoom, BudgetHandle, BudgetLimit, BudgetError, BudgetReservation, Bridge, Name,
  over, held_for, hold, limits_from, of_sdk, named, found_or_made, look_up, handle_for, first_short,
  assert_within_limits, reservation, reserve_enabled, reserve,
}

of_sdk-returned : {E A : Type 0} (r : Attempt E A) {a : A} → of_sdk r ≡ returned a → r ≡ returned a
of_sdk-returned (returned b) h = ground arith
of_sdk-returned (threw e) h = cc

module _ {S E : Type 0} (sdk : Sdk S E) (per : PerRoom) (named_sdk : IsNamed sdk) where
  -- The handle is the one that the SDK had under the name, or else one that it made under the
  -- configured limits; `t` is the state of the SDK then.
  abbrev pub IsGot : Name → S → BudgetHandle → S → Type 0
  IsGot n s h t =
      ((sdk.get_budget n s ≡ some h) × (t ≡ s))
      ⊎ ((sdk.get_budget n s ≡ none) × (sdk.create n (limits_from (some per)) s ≡ (returned h, t)))

  -- Making the handle changes no hold, and a handle bears the room's name.
  made-named :
      (n : Name) (o : Option BudgetHandle) (b : Bridge) (s : S)
      → sdk.get_budget n s ≡ o
      → ((found_or_made sdk (some per) n o (b, s)).1.0 ≡ b)
        × ((h : BudgetHandle)
            → (found_or_made sdk (some per) n o (b, s)).0 ≡ returned h
            → (h.name ≡ n) × IsGot n s h (found_or_made sdk (some per) n o (b, s)).1.1)
  made-named n (some g) b s there = (
    refl,
    (λ h e.
        let same : g ≡ h = ground arith in
        rw (← same) (named_sdk.found n s g there, inl (there, refl))),
  )
  made-named n none b s missing =
      let made = sdk.create n (limits_from (some per)) s in
      (
        refl,
        (λ h e.
            let it = ap (λ r. (r, made.1)) (of_sdk-returned made.0 e) in
            (named_sdk.made n _ s made.1 h it, inr (missing, it))),
      )

  handle_from-named :
      (o : Option Name) (b : Bridge) (s : S)
      → ((proceed (look_up sdk (some per)) (named sdk (some per) o (b, s))).1.0 ≡ b)
        × ((h : BudgetHandle)
            → (proceed (look_up sdk (some per)) (named sdk (some per) o (b, s))).0 ≡ returned h
            → (o ≡ some h.name)
              × IsGot h.name s h
                  (proceed (look_up sdk (some per)) (named sdk (some per) o (b, s))).1.1)
  handle_from-named none b s = (refl, (λ h e. cc))
  handle_from-named (some n) b s =
      let (same, ok) = made-named n (sdk.get_budget n s) b s refl in
      (
        same,
        (λ h e.
            let (bears, got) = ok h e in
            (
              ap some (sym bears),
              subst
                  (λ m.
                    IsGot m s h (found_or_made sdk (some per) n (sdk.get_budget n s) (b, s)).1.1)
                  (sym bears) got,
            )),
      )

  pub handle_for-named :
      (c r : List ℕ) (b : Bridge) (s : S)
      → ((handle_for sdk (some per) c r (b, s)).1.0 ≡ b)
        × ((h : BudgetHandle)
            → (handle_for sdk (some per) c r (b, s)).0 ≡ returned h
            → (budget_name_for c r ≡ some h.name)
              × IsGot h.name s h (handle_for sdk (some per) c r (b, s)).1.1)
  unfolding handle_for
  handle_for-named c r b s = handle_from-named (budget_name_for c r) b s

  -- No limit is short: each has room for the estimate and what is held.
  first_short-none :
      (h : BudgetHandle) (held usd : ℕ) (s : S) (ls : List BudgetLimit)
      → first_short sdk (some per) h held usd s ls ≡ none
      → All (λ l. usd + held ≤ sdk.remaining_in h l.window s) ls
  unfolding first_short
  first_short-none h held usd s [] e = tt
  first_short-none h held usd s (l ∷ ls) e = ground (arith, first_short-none h held usd s ls)

  -- The check changes no hold; what passes it is within the cap for a request, within each limit
  -- together with what is held, if anything is, and was let pass by the SDK.
  pub assert_within_limits-passed :
      (h : BudgetHandle) (usd : ℕ) (b : Bridge) (s : S)
      → ((assert_within_limits sdk (some per) per h usd (b, s)).1.0 ≡ b)
        × ((assert_within_limits sdk (some per) per h usd (b, s)).0 ≡ returned tt
            → (over per.per_request_usd usd ≡ false)
              × (0 < held_for h.name b.holds
                  → All
                      (λ l. usd + held_for h.name b.holds ≤ sdk.remaining_in h l.window s)
                      h.limits)
              × (sdk.preflight_check h.name usd s
                  ≡ (returned tt, (assert_within_limits sdk (some per) per h usd (b, s)).1.1)))
  unfolding assert_within_limits
  assert_within_limits-passed h usd b s =
      let held = held_for h.name b.holds in
      let asked = sdk.preflight_check h.name usd s in
      let checked : of_sdk asked.0 ≡ returned tt
          → sdk.preflight_check h.name usd s ≡ (returned tt, asked.1) =
        λ e. ap (λ r. (r, asked.1)) (of_sdk-returned asked.0 e) in
      elim (Bool-cases (over per.per_request_usd usd)) [
        | inl above ↦ rw above (refl, (λ e. cc))
        | inr fits ↦ elim (Bool-cases (ltb 0 held)) [
          | inl some_held ↦ elim (Option-cases (first_short sdk (some per) h held usd s h.limits)) [
            | inl room ↦
                rw (fits, some_held, room)
                  (
                    refl,
                    (λ e. (refl, (λ lt. first_short-none h held usd s h.limits room), checked e)),
                  )
            | inr (w, short) ↦ rw (fits, some_held, short) (refl, (λ e. cc))
          ]
          | inr none_held ↦
              rw (fits, none_held) (refl, (λ e. (refl, (λ lt. ground arith), checked e)))
        ]
      ]

  -- What a reservation that is made tells of the budget. `looked` is the state of the SDK when the
  -- handle is there.
  pub record Reserved (c r : List ℕ) (usd : ℕ) (b : Bridge) (s : S) (after : Bridge × S)
      : Type 0 where
    pub handle : BudgetHandle
    pub looked : S
    pub got : IsGot handle.name s handle looked
    pub named : budget_name_for c r ≡ some handle.name
    pub capped : over per.per_request_usd usd ≡ false
    pub held : after.0.holds ≡ hold handle.name b.next_hold_id usd b.holds
    pub fits :
        0 < held_for handle.name b.holds
        → All
            (λ l. usd + held_for handle.name b.holds ≤ sdk.remaining_in handle l.window looked)
            handle.limits
    pub let_pass : sdk.preflight_check handle.name usd looked ≡ (returned tt, after.1)

  abbrev pub IsOutcome :
      (c r : List ℕ) (usd : ℕ) (b : Bridge) (s : S)
      → Attempt (BudgetError E) BudgetReservation × (Bridge × S)
      → Type 0
  IsOutcome c r usd b s p =
      (p.1.0.next_hold_id ≡ suc b.next_hold_id)
      × (((e : BudgetError E) × (p.1.0.holds ≡ b.holds) × (p.0 ≡ threw e))
          ⊎ (p.0 ≡ returned (reservation sdk (some per) c r usd b.next_hold_id))
            × Reserved c r usd b s p.1)

  -- A call of `reserve` takes a number for its hold. If it throws, the holds are as they were;
  -- if it returns, the handle is the one that the SDK has for the room or makes under the
  -- configured limits, the estimate is within the cap for a request and, if anything is held,
  -- within every limit of the handle together with that, the SDK let it pass, and it is held
  -- under the room's name.
  pub reserve-IsOutcome :
      (c r : List ℕ) (usd : ℕ) (b : Bridge) (s : S)
      → IsOutcome c r usd b s (reserve sdk (some per) c r usd (b, s))
  unfolding reserve reserve_enabled
  reserve-IsOutcome c r usd b s =
      let counted = record b { next_hold_id = suc b.next_hold_id } in
      let made = handle_for sdk (some per) c r (counted, s) in
      let (same, ok) = handle_for-named c r counted s in
      elim (Attempt-cases made.0) [
        | inr (e, bad) ↦
            rw (proceed-threw made _ bad)
              (ap (λ x. x.next_hold_id) same, inl (e, ap (λ x. x.holds) same, refl))
        | inl (h, good) ↦
            let checked = assert_within_limits sdk (some per) per h usd made.1 in
            let (unchanged, passed) = assert_within_limits-passed h usd made.1.0 made.1.1 in
            let whole = unchanged ∙ same in
            elim (Attempt-cases checked.0) [
              | inr (e, bad) ↦
                  rw (proceed-returned made _ good, proceed-threw checked _ bad)
                    (ap (λ x. x.next_hold_id) whole, inl (e, ap (λ x. x.holds) whole, refl))
              | inl (u, fine) ↦
                  let (capped, room, passes) = passed fine in
                  let (bears, got) = ok h good in
                  rw (proceed-returned made _ good, proceed-returned checked _ fine)
                    (
                      ap (λ x. x.next_hold_id) whole,
                      inr (
                        refl,
                        record {
                          handle = h;
                          looked = made.1.1;
                          got = got;
                          named = bears;
                          let_pass = passes;
                          capped = capped;
                          held = ap (λ x. hold h.name b.next_hold_id usd x.holds) whole;
                          fits =
                              subst
                                (λ x.
                                  0 < held_for h.name x.holds
                                  → All
                                      (λ l.
                                        usd + held_for h.name x.holds
                                        ≤ sdk.remaining_in h l.window made.1.1)
                                      h.limits)
                                same room;
                        },
                      ),
                    )
            ]
      ]
