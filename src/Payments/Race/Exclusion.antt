-- ===== src/Payments/Race/Exclusion.antt =====
-- However deliveries interleave, one event is handled by one delivery at a time, and by none after
-- a success.
use theokit_plugins.Common.{
  ℕ, String, Bool, true, false, Option, none, some, List, [], ◌∷◌, nat_eq, string_eq, ◌≡◌, ◌≢◌,
  refl, arith, inl, inr, Bool-cases, ap,
}
use theokit_plugins.Common.Assoc.{get}
use theokit_plugins.Payments.Store.{MemoryStore, is_seen, add_seen, remove_seen}
use theokit_plugins.Payments.Store.Laws.{is_seen-add_seen, is_seen-remove_seen, add_seen-new}
use theokit_plugins.Payments.Race.{
  Phase, fresh, deciding, dispatching, releasing, succeeded, duplicate, failed, waiting, decided,
  System, update, settled, resume, run_schedule, at_rest,
}

-- The phases in which a delivery owns its event.
abbrev pub holds : Phase → Bool
holds (decided won) = won
holds dispatching = true
holds releasing = true
holds succeeded = true
holds fresh = false
holds deciding = false
holds duplicate = false
holds failed = false
holds (waiting caller) = false

module _ (ids : ℕ → String) where
  pub record IsExclusive (s : System) : Type 0 where
    pub recorded : (i : ℕ) → holds (s.phase i) ≡ true → is_seen (ids i) s.store.seen ≡ true
    pub single :
        (i j : ℕ) → ids i ≡ ids j → holds (s.phase i) ≡ true → holds (s.phase j) ≡ true → i ≡ j

  -- A step that makes no owner and leaves `seen` alone.
  keep-IsExclusive :
      (s : System) (i : ℕ) (p : Phase) (store : MemoryStore)
      → (holds p ≡ true → holds (s.phase i) ≡ true)
      → store.seen ≡ s.store.seen
      → IsExclusive s
      → IsExclusive (record { store = store; phase = update s.phase i p })
  keep-IsExclusive s i p store old same inv = record {
    recorded = λ j h. ground (arith, inv.recorded j, inv.recorded i);
    single = λ j k e h h'.
        ground (arith, inv.single j k e, inv.single i k, inv.single j i, inv.single i i refl);
  }

  -- A claim that is granted.
  grant-IsExclusive :
      (s : System) (i : ℕ) (p : Phase) (store : MemoryStore)
      → is_seen (ids i) s.store.seen ≡ false
      → store.seen ≡ add_seen (ids i) s.store.seen
      → IsExclusive s
      → IsExclusive (record { store = store; phase = update s.phase i p })
  grant-IsExclusive s i p store new add inv = record {
    recorded = λ j h. rw add (
        ground (
          arith,
          inv.recorded j,
          is_seen-add_seen (ids i) (ids j) s.store.seen,
          string_eq.beq_iff (ids i) (ids j),
        ));
    single = λ j k e h h'.
        ground (arith, inv.single j k e, inv.recorded j, inv.recorded k, inv.recorded i);
  }

  -- An owner that lets go.
  drop-IsExclusive :
      (s : System) (i : ℕ) (p : Phase) (store : MemoryStore)
      → holds (s.phase i) ≡ true
      → holds p ≡ false
      → store.seen ≡ remove_seen (ids i) s.store.seen
      → IsExclusive s
      → IsExclusive (record { store = store; phase = update s.phase i p })
  drop-IsExclusive s i p store owned free less inv = record {
    recorded = λ j h. rw less (
        ground (
          arith,
          inv.recorded j,
          inv.single i j,
          is_seen-remove_seen (ids i) (ids j) s.store.seen,
          string_eq.beq_iff (ids i) (ids j),
        ));
    single = λ j k e h h'. ground (arith, inv.single j k e);
  }

  resume_fresh-IsExclusive :
      (i : ℕ) (ok : Bool) (s : System) (o : Option ℕ)
      → get (ids i) s.store.inflight ≡ o
      → IsExclusive s
      → IsExclusive (resume ids i ok s fresh)
  unfolding resume
  resume_fresh-IsExclusive i ok s none e inv =
      rw (e, resume) (keep-IsExclusive s i deciding _ (λ h. cc) refl inv)
  resume_fresh-IsExclusive i ok s (some c) e inv =
      rw (e, resume) (keep-IsExclusive s i (waiting c) _ (λ h. cc) refl inv)

  resume-IsExclusive :
      (i : ℕ) (ok : Bool) (s : System) (p : Phase)
      → s.phase i ≡ p
      → IsExclusive s
      → IsExclusive (resume ids i ok s p)
  unfolding resume
  resume-IsExclusive i ok s fresh e inv = resume_fresh-IsExclusive i ok s _ refl inv
  resume-IsExclusive i ok s deciding e inv = elim (Bool-cases (is_seen (ids i) s.store.seen)) [
    | inl old ↦ rw (old, resume) (keep-IsExclusive s i (decided false) _ (λ h. cc) refl inv)
    | inr new ↦
        rw (new, resume) (grant-IsExclusive s i (decided true) _ new (add_seen-new _ _ new) inv)
  ]
  resume-IsExclusive i ok s (waiting c) e inv = elim (Bool-cases (settled (s.phase c))) [
    | inl done ↦ rw (done, resume) (keep-IsExclusive s i duplicate _ (λ h. cc) refl inv)
    | inr unsettled ↦ rw (unsettled, resume) inv
  ]
  resume-IsExclusive i ok s (decided true) e inv =
      keep-IsExclusive s i dispatching _ (λ h. ap holds e) refl inv
  resume-IsExclusive i ok s (decided false) e inv =
      keep-IsExclusive s i duplicate _ (λ h. cc) refl inv
  resume-IsExclusive i true s dispatching e inv =
      keep-IsExclusive s i succeeded _ (λ h. ap holds e) refl inv
  resume-IsExclusive i false s dispatching e inv =
      keep-IsExclusive s i releasing _ (λ h. ap holds e) refl inv
  resume-IsExclusive i ok s releasing e inv =
      drop-IsExclusive s i failed _ (ap holds e) refl refl inv
  resume-IsExclusive i ok s succeeded e inv = inv
  resume-IsExclusive i ok s duplicate e inv = inv
  resume-IsExclusive i ok s failed e inv = inv

  pub run_schedule-IsExclusive :
      (schedule : List (ℕ × Bool)) (s : System)
      → IsExclusive s
      → IsExclusive (run_schedule ids schedule s)
  unfolding run_schedule
  run_schedule-IsExclusive [] s inv = inv
  run_schedule-IsExclusive ((i, ok) ∷ rest) s inv =
      run_schedule-IsExclusive rest (resume ids i ok s (s.phase i))
        (resume-IsExclusive i ok s (s.phase i) refl inv)

  at_rest-IsExclusive : IsExclusive at_rest
  at_rest-IsExclusive = record { recorded = λ i h. cc; single = λ i j e h h'. cc }

  -- A delivery that succeeded stays so.
  resume-succeeded :
      (i j : ℕ) (ok : Bool) (s : System) (p : Phase)
      → s.phase i ≡ p
      → s.phase j ≡ succeeded
      → (resume ids i ok s p).phase j ≡ succeeded
  unfolding resume
  resume-succeeded i j ok s fresh e h = ground arith
  resume-succeeded i j ok s p e h = ground arith

  run_schedule-succeeded :
      (schedule : List (ℕ × Bool)) (j : ℕ) (s : System)
      → s.phase j ≡ succeeded
      → (run_schedule ids schedule s).phase j ≡ succeeded
  unfolding run_schedule
  run_schedule-succeeded [] j s h = h
  run_schedule-succeeded ((i, ok) ∷ rest) j s h =
      run_schedule-succeeded rest j (resume ids i ok s (s.phase i))
        (resume-succeeded i j ok s (s.phase i) refl h)

-- Whatever the schedule, two deliveries that own their event (a claim granted, its handlers
-- running, failed and not yet released, or succeeded) and carry the same event are one delivery.
pub run_schedule-single :
    (ids : ℕ → String) (schedule : List (ℕ × Bool)) (i j : ℕ)
    → ids i ≡ ids j
    → holds ((run_schedule ids schedule at_rest).phase i) ≡ true
    → holds ((run_schedule ids schedule at_rest).phase j) ≡ true
    → i ≡ j
run_schedule-single ids schedule i j =
    let inv = run_schedule-IsExclusive ids schedule at_rest (at_rest-IsExclusive ids) in
    inv.single i j

-- Once delivery `i` has succeeded, no later step lets another delivery of the same event run its
-- handlers.
pub run_schedule-final :
    (ids : ℕ → String) (before after : List (ℕ × Bool)) (i j : ℕ)
    → i ≢ j
    → ids i ≡ ids j
    → (run_schedule ids before at_rest).phase i ≡ succeeded
    → (run_schedule ids after (run_schedule ids before at_rest)).phase j ≢ dispatching
run_schedule-final ids before after i j apart same done =
    let s = run_schedule ids before at_rest in
    let inv =
      run_schedule-IsExclusive ids after s
        (run_schedule-IsExclusive ids before at_rest (at_rest-IsExclusive ids)) in
    let kept = run_schedule-succeeded ids after i s done in
    λ running. apart (inv.single i j same (ap holds kept) (ap holds running))
