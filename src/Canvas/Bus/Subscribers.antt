-- ===== src/Canvas/Bus/Subscribers.antt =====
-- The bus is a set of pairs of a conversation and a handler.
use theokit_plugins.Common.{
  ℕ, ◌≤◌, String, Bool, false, Option, none, some, List, [], ◌∷◌, ◌++◌, append-nil, append_assoc,
  not, ◌&&◌, ◌||◌, map, if◌then◌else◌, ◌==◌, ◌≡◌, ◌≢◌, refl, sym, subst, ap, ◌∙◌, arith, nat_beq,
  string_eq, Bool-cases, if-both, inl, inr, beq_self,
}
use theokit_plugins.Common.Assoc.{Assoc, get, set, get-set, get-delete}
use theokit_plugins.Canvas.Artifact.{Artifact}
use theokit_plugins.Canvas.Bus.{
  Bus, create_artifact_bus, or_none, handlers_of, elem, add, remove, subscribe, put_back,
  unsubscribe_from, called_one, emit_each, emit, Op, subscribes, unsubscribes, emits, disposes,
  operate, run_ops,
}
use theokit_plugins.Canvas.Bus.Sets.{elem-add, elem-remove, times, times-add, times-remove}

get-put_back :
    (m : Assoc String (List ℕ)) (c d : String) (hs : List ℕ)
    → or_none (get d (put_back c hs m)) ≡ (if c == d then hs else or_none (get d m))
get-put_back m c d [] = ground (arith, get-delete c d m)
get-put_back m c d (h ∷ hs) = ground (arith, get-set c d (h ∷ hs) m)

put_back-filled :
    (m : Assoc String (List ℕ)) (c d : String) (hs : List ℕ)
    → get d m ≢ some []
    → get d (put_back c hs m) ≢ some []
put_back-filled m c d [] h e = ground (arith, get-delete c d m)
put_back-filled m c d (x ∷ hs) h e = ground (arith, get-set c d (x ∷ hs) m)

-- Who is to be told of a conversation.
abbrev pub Wanted : Type 0
Wanted = String → ℕ → Bool

abbrev pub wanted_after : Op → Wanted → Wanted
wanted_after (subscribes c k) f d j = f d j || (c == d && nat_beq k j)
wanted_after (unsubscribes c k) f d j = f d j && not (c == d && nat_beq k j)
wanted_after (emits c a) f d j = f d j
wanted_after disposes f d j = false

abbrev pub wanted : List Op → Wanted → Wanted
wanted [] f = f
wanted (o ∷ os) f = wanted os (wanted_after o f)

-- The bus holds those pairs, each handler once, and no conversation without a handler.
pub record IsBus (f : Wanted) (b : Bus) : Type 0 where
  pub agrees : (c : String) (k : ℕ) → elem k (handlers_of c b) ≡ f c k
  pub once : (c : String) (k : ℕ) → times k (handlers_of c b) ≤ 1
  pub filled : (c : String) → get c b.subscribers ≢ some []

add-filled : (k : ℕ) (hs : List ℕ) → add k hs ≢ []
add-filled k [] = λ e. cc
add-filled k (h ∷ hs) =
    if-both (λ l. l ≢ []) (elem k (h ∷ hs)) (h ∷ hs) (h ∷ (hs ++ k ∷ [])) (λ there e. cc)
      (λ new e. cc)

-- A change of one conversation's handlers, for a predicate of the handlers of each.
changed :
    (m m' : Assoc String (List ℕ)) (c : String) (hs : List ℕ)
    → ((d : String) → or_none (get d m') ≡ (if c == d then hs else or_none (get d m)))
    → (P : String → List ℕ → Type 0) → P c hs
    → ((d : String) → (c == d) ≡ false → P d (or_none (get d m)))
    → (d : String) → P d (or_none (get d m'))
changed m m' c hs is P here elsewhere d = subst (P d) (sym (is d)) (
    if-both (P d) (c == d) hs (or_none (get d m))
      (λ same. subst (λ x. P x hs) ((string_eq.beq_iff c d).0 same) here)
      (λ other. elsewhere d other))

get-subscribe :
    (c : String) (hs : List ℕ) (m : Assoc String (List ℕ)) (d : String)
    → or_none (get d (set c hs m)) ≡ (if c == d then hs else or_none (get d m))
get-subscribe c hs m d = ground (arith, get-set c d hs m)

subscribe-IsBus :
    (c : String) (k : ℕ) (f : Wanted) (b : Bus)
    → IsBus f b
    → IsBus (wanted_after (subscribes c k) f) (subscribe c k b)
subscribe-IsBus c k f b v = record {
  agrees = λ d j.
      changed b.subscribers _ c _ (get-subscribe c _ b.subscribers)
        (λ d l. elem j l ≡ wanted_after (subscribes c k) f d j)
        (rw (elem-add j k (handlers_of c b), v.agrees c j, beq_self c) refl)
        (λ d other. ground (arith, v.agrees d j, other)) d;
  once = λ d j.
      changed b.subscribers _ c _ (get-subscribe c _ b.subscribers) (λ d l. times j l ≤ 1)
        (times-add j k (handlers_of c b) (v.once c j)) (λ d other. v.once d j) d;
  filled = λ d e. ground (
    arith,
    get-set c d (add k (handlers_of c b)) b.subscribers,
    add-filled k (handlers_of c b),
    v.filled d,
  );
}

unsubscribed-IsBus :
    (c : String) (k : ℕ) (o : Option (List ℕ)) (f : Wanted) (b : Bus)
    → get c b.subscribers ≡ o
    → IsBus f b
    → IsBus (wanted_after (unsubscribes c k) f) (unsubscribe_from c k o b)
unsubscribed-IsBus c k none f b e v = record {
  agrees = λ d j. elim (Bool-cases (c == d)) [
    | inl same ↦
        rw
          (
            v.agrees d j,
            subst (λ x. f x j ≡ false) ((string_eq.beq_iff c d).0 same)
                (sym (v.agrees c j) ∙ ap (λ o. elem j (or_none o)) e),
          )
          refl
    | inr other ↦ ground (arith, v.agrees d j, other)
  ];
  once = v.once;
  filled = v.filled;
}
unsubscribed-IsBus c k (some hs) f b e v = record {
  agrees = λ d j.
      changed b.subscribers _ c _ (λ d. get-put_back b.subscribers c d (remove k hs))
        (λ d l. elem j l ≡ wanted_after (unsubscribes c k) f d j)
        (rw (elem-remove j k hs, beq_self c)
          (ap (λ x. x && not (nat_beq k j)) (sym (ap (λ o. elem j (or_none o)) e) ∙ v.agrees c j)))
        (λ d other. ground (arith, v.agrees d j, other)) d;
  once = λ d j.
      changed b.subscribers _ c _ (λ d. get-put_back b.subscribers c d (remove k hs))
        (λ d l. times j l ≤ 1)
        (omega (arith, times-remove j k hs, subst (λ l. times j l ≤ 1) (ap or_none e) (v.once c j)))
        (λ d other. v.once d j) d;
  filled = λ d. put_back-filled b.subscribers c d (remove k hs) (v.filled d);
}

emit_each-kept :
    (throws : ℕ → Artifact → Bool) (a : Artifact) (hs : List ℕ) (b : Bus)
    → (emit_each throws a hs b).subscribers ≡ b.subscribers
unfolding emit_each
emit_each-kept throws a [] b = refl
emit_each-kept throws a (h ∷ hs) b = emit_each-kept throws a hs (called_one throws h a b)

emit_each-calls :
    (throws : ℕ → Artifact → Bool) (a : Artifact) (hs : List ℕ) (b : Bus)
    → (emit_each throws a hs b).called ≡ b.called ++ map (λ h. (h, a)) hs
unfolding emit_each
emit_each-calls throws a [] b = sym (append-nil _)
emit_each-calls throws a (h ∷ hs) b =
    emit_each-calls throws a hs (called_one throws h a b)
    ∙ append_assoc b.called ((h, a) ∷ []) (map (λ h. (h, a)) hs)

same-IsBus : (f : Wanted) (b t : Bus) → t.subscribers ≡ b.subscribers → IsBus f b → IsBus f t
same-IsBus f b t e v = record {
  agrees = λ c k. ap (λ m. elem k (or_none (get c m))) e ∙ v.agrees c k;
  once = λ c k. subst (λ m. times k (or_none (get c m)) ≤ 1) (sym e) (v.once c k);
  filled = λ c. subst (λ m. get c m ≢ some []) (sym e) (v.filled c);
}

abbrev pub none_wanted : Wanted
none_wanted c k = false

module _ (throws : ℕ → Artifact → Bool) where
  operate-IsBus :
      (o : Op) (f : Wanted) (b : Bus) → IsBus f b → IsBus (wanted_after o f) (operate throws o b)
  unfolding get
  operate-IsBus (subscribes c k) f b v = subscribe-IsBus c k f b v
  operate-IsBus (unsubscribes c k) f b v = unsubscribed-IsBus c k (get c b.subscribers) f b refl v
  operate-IsBus (emits c a) f b v = same-IsBus f b _ (emit_each-kept throws a (handlers_of c b) b) v
  operate-IsBus disposes f b v = record {
    agrees = λ c k. refl;
    once = λ c k. omega arith;
    filled = λ c e. cc;
  }

  run_ops-kept :
      (os : List Op) (f : Wanted) (b : Bus) → IsBus f b → IsBus (wanted os f) (run_ops throws os b)
  unfolding run_ops
  run_ops-kept [] f b v = v
  run_ops-kept (o ∷ os) f b v =
      run_ops-kept os (wanted_after o f) (operate throws o b) (operate-IsBus o f b v)

  new-IsBus : IsBus none_wanted create_artifact_bus
  unfolding get
  new-IsBus = record { agrees = λ c k. refl; once = λ c k. omega arith; filled = λ c e. cc }

  -- After any uses, whichever handlers throw, a conversation's handlers are those that subscribed
  -- to it and whose subscription was not ended since, each once, and no conversation without a
  -- handler is kept; and an artifact is then given to each of them once, in order.
  pub run_ops-IsBus :
      (os : List Op)
      → IsBus (wanted os none_wanted) (run_ops throws os create_artifact_bus)
        × ((c : String) (a : Artifact)
            → let b = run_ops throws os create_artifact_bus in
              (emit throws c a b).called ≡ b.called ++ map (λ h. (h, a)) (handlers_of c b))
  run_ops-IsBus os = (
    run_ops-kept os none_wanted create_artifact_bus new-IsBus,
    λ c a. emit_each-calls throws a _ _,
  )
