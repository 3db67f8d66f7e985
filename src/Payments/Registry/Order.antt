-- ===== src/Payments/Registry/Order.antt =====
-- A dispatch runs every handler of the event's type, the newest first, whatever they throw.
use theokit_plugins.Common.{
  ℕ, zero, suc, String, List, [], ◌∷◌, ◌++◌, length, string_eq, ◌≡◌, refl, sym, ◌∙◌, ap, ◌≡⟨◌⟩◌, ◌∎,
  length-snoc, Bool-cases, inl, inr, arith, ◌≤◌, ◌==◌, if◌then◌else◌, reverse, reverse-cons,
  reverse-reverse, reverse-append, append_assoc, append-nil, get_elem?-append_lt,
  get_elem?-append_last,
}
use theokit_plugins.Common.Assoc.{get, get-set}
use theokit_plugins.Common.Async.{Attempt, returned, threw}
use theokit_plugins.Payments.Registry.{
  Handler, Registry, or_empty, bucket_of, register, push_error, dispatch_loop, throw_if_any,
  dispatch,
}

-- The errors of a run, as a list.
abbrev pub thrown : {E : Type 0} → Attempt E (Unit {0}) → List E
thrown (returned _) = []
thrown (threw e) = e ∷ []

push_error-thrown :
    {E : Type 0} (r : Attempt E (Unit {0})) (errors : List E)
    → push_error r errors ≡ errors ++ thrown r
push_error-thrown (returned _) errors = sym (append-nil errors)
push_error-thrown (threw e) errors = refl

module _ {Event H E : Type 0} where
  -- The specification: each handler runs on the state that the one before it left, and what they
  -- throw is collected in that order.
  abbrev pub run_all : List (Handler Event H E) → Event → H → List E × H
  run_all [] event h = ([], h)
  run_all (x ∷ xs) event h =
      let (r, h') = x.handle event h in let (es, h'') = run_all xs event h' in (thrown r ++ es, h'')

  -- A longer bucket does not change the rounds below.
  dispatch_loop-append :
      (xs ys : List (Handler Event H E)) (event : Event) (i : ℕ) (errors : List E) (h : H)
      → i ≤ length xs
      → dispatch_loop (xs ++ ys) event i errors h ≡ dispatch_loop xs event i errors h
  unfolding dispatch_loop
  dispatch_loop-append xs ys event zero errors h le = refl
  dispatch_loop-append xs ys event (suc i) errors h le =
      rw (get_elem?-append_lt xs ys i le) (dispatch_loop-append xs ys event i _ _ (omega arith))

  -- The first round is the newest handler's.
  dispatch_loop-snoc :
      (xs : List (Handler Event H E)) (x : Handler Event H E) (event : Event) (errors : List E)
      (h : H)
      → dispatch_loop (xs ++ x ∷ []) event (suc (length xs)) errors h
        ≡ dispatch_loop xs event
            (length xs)
            (errors ++ thrown (x.handle event h).0)
            (x.handle event h).1
  unfolding dispatch_loop
  dispatch_loop-snoc xs x event errors h =
      rw (get_elem?-append_last xs x, dispatch_loop, push_error-thrown)
        (dispatch_loop-append xs (x ∷ []) event (length xs) _ _ (omega arith))

  dispatch_loop-run_all :
      (rs : List (Handler Event H E)) (event : Event) (errors : List E) (h : H)
      → dispatch_loop (reverse rs) event (length (reverse rs)) errors h
        ≡ (errors ++ (run_all rs event h).0, (run_all rs event h).1)
  unfolding dispatch_loop
  dispatch_loop-run_all [] event errors h = rw append-nil
  dispatch_loop-run_all (r ∷ rs) event errors h =
      dispatch_loop (reverse (r ∷ rs)) event (length (reverse (r ∷ rs))) errors h
      ≡⟨ ap (λ b. dispatch_loop b event (length b) errors h) (reverse-cons r rs) ⟩
        dispatch_loop (reverse rs ++ r ∷ []) event (length (reverse rs ++ r ∷ [])) errors h
      ≡⟨ (rw (length-snoc (reverse rs) r) (dispatch_loop-snoc (reverse rs) r event errors h)) ⟩
        dispatch_loop (reverse rs) event (length (reverse rs))
          (errors ++ thrown (r.handle event h).0) (r.handle event h).1
      ≡⟨ dispatch_loop-run_all rs event _ _ ⟩
        (
          (errors ++ thrown (r.handle event h).0) ++ (run_all rs event (r.handle event h).1).0,
          (run_all rs event (r.handle event h).1).1,
        )
      ≡⟨ (rw append_assoc) ⟩
        (errors ++ (run_all (r ∷ rs) event h).0, (run_all (r ∷ rs) event h).1) ∎

  -- `dispatch` runs the handlers of the event's type once each, the newest first, every one of
  -- them whatever the others throw; it throws exactly if one of them did, and then all that they
  -- threw, in the order in which they ran.
  pub dispatch-run_all :
      (event_type : String) (r : Registry Event H E) (event : Event) (h : H)
      → dispatch event_type r event h
        ≡ throw_if_any event_type (run_all (reverse (bucket_of event_type r)) event h)
  unfolding dispatch
  dispatch-run_all event_type r event h = ap (throw_if_any event_type) (
      ap (λ b. dispatch_loop b event (length b) [] h)
        (sym (reverse-reverse (bucket_of event_type r)))
      ∙ dispatch_loop-run_all (reverse (bucket_of event_type r)) event [] h)

  -- A registration appends to the bucket of the handler's type and leaves the others.
  pub bucket_of-register :
      (x : Handler Event H E) (event_type : String) (r : Registry Event H E)
      → bucket_of event_type (register x r) ≡ (
          if x.event_type == event_type
          then bucket_of event_type r ++ x ∷ []
          else bucket_of event_type r)
  unfolding bucket_of register
  bucket_of-register x event_type r = ground (
    arith,
    get-set x.event_type event_type (or_empty (get x.event_type r.handlers) ++ x ∷ []) r.handlers,
    string_eq.beq_iff x.event_type event_type,
  )

  reverse-register :
      (x : Handler Event H E) (event_type : String) (r : Registry Event H E)
      → reverse (bucket_of event_type (register x r)) ≡ (
          if x.event_type == event_type
          then x ∷ reverse (bucket_of event_type r)
          else reverse (bucket_of event_type r))
  reverse-register x event_type r = elim (Bool-cases (x.event_type == event_type)) [
    | inl same ↦
        rw (bucket_of-register, same, reverse-append (bucket_of event_type r) (x ∷ [])) refl
    | inr other ↦ rw (bucket_of-register, other) refl
  ]

  -- A handler that is registered for an event's type runs before those that were there, and one
  -- registered for another type changes nothing.
  pub dispatch-register :
      (x : Handler Event H E) (event_type : String) (r : Registry Event H E) (event : Event) (h : H)
      → dispatch event_type (register x r) event h
        ≡ throw_if_any event_type (
            run_all
              (if x.event_type == event_type
                then x ∷ reverse (bucket_of event_type r)
                else reverse (bucket_of event_type r))
              event
              h)
  dispatch-register x event_type r event h =
      dispatch-run_all event_type (register x r) event h
      ∙ ap (λ b. throw_if_any event_type (run_all b event h)) (reverse-register x event_type r)
