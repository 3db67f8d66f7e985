-- ===== src/Copilot/Cost/Source.antt =====
-- Where a settled amount comes from, and what is asked of the price table.
use theokit_plugins.Common.{
  ℕ, ◌+◌, Option, none, some, List, [], ◌∷◌, ◌++◌, nat_beq, ◌≡◌, ◌≢◌, ◌⊎◌, refl, sym, ap, ◌∙◌,
  arith, All, Option-cases, Bool-cases, inl, inr,
}
use theokit_plugins.Common.Async.{Attempt, returned, threw}
use theokit_plugins.Copilot.Cost.{
  CopilotUsage, SettledCost, TokenUsage, split_at_slash, provider_and_model, split_model_id,
  of_breakdown, from_tokens, from_usage, settle_cost,
}

-- The text has no slash.
abbrev pub NoSlash : List ℕ → Type 0
NoSlash = All (λ c. c ≢ b'/')

abbrev front_of : Option (List ℕ × List ℕ) → List ℕ
front_of none = []
front_of (some (f, b)) = f

abbrev back_of : Option (List ℕ × List ℕ) → List ℕ
back_of none = []
back_of (some (f, b)) = b

split_at_slash-found :
    (id front back : List ℕ)
    → split_at_slash id ≡ some (front, back)
    → (front ++ b'/' ∷ back ≡ id) × NoSlash front
unfolding split_at_slash
split_at_slash-found [] front back e = cc
split_at_slash-found (c ∷ cs) front back e = elim (Bool-cases (nat_beq c b'/')) [
  | inl slash ↦
      let cut : ◌≡◌ {A = Option (List ℕ × List ℕ)} (some ([], cs)) (some (front, back)) =
        rw slash at e in
      let no_front : [] ≡ front = ap (λ o. front_of o) cut in
      let same_back : cs ≡ back = ap (λ o. back_of o) cut in
      let here : c ≡ b'/' = ground arith in rw (← no_front, ← same_back, here) (refl, tt)
  | inr other ↦ elim (Option-cases (split_at_slash cs)) [
    | inl missing ↦ ground arith
    | inr (p, found) ↦
        let (f, b) = p in
        let (whole, plain) = split_at_slash-found cs f b found in
        let cut : ◌≡◌ {A = Option (List ℕ × List ℕ)} (some (c ∷ f, b)) (some (front, back)) =
          rw (other, found) at e in
        let longer : c ∷ f ≡ front = ap (λ o. front_of o) cut in
        let same_back : b ≡ back = ap (λ o. back_of o) cut in
        rw (← longer, ← same_back, whole) (refl, (ground arith, plain))
  ]
]

-- A text that is cut at its first slash is found cut there.
split_at_slash-cut :
    (front back : List ℕ)
    → NoSlash front
    → split_at_slash (front ++ b'/' ∷ back) ≡ some (front, back)
unfolding split_at_slash
split_at_slash-cut [] back h = refl
split_at_slash-cut (c ∷ front) back (other, h) = ground (arith, split_at_slash-cut front back h)

-- Wherever the first slash of the id is, nothing stands before it or nothing after it.
abbrev pub IsWhole : List ℕ → Type 0
IsWhole id =
    (front back : List ℕ) → NoSlash front → front ++ b'/' ∷ back ≡ id → (front ≡ []) ⊎ (back ≡ [])

cut_of :
    (id front back : List ℕ) (o : Option (List ℕ × List ℕ))
    → split_at_slash id ≡ o
    → NoSlash front
    → front ++ b'/' ∷ back ≡ id
    → o ≡ some (front, back)
cut_of id front back o e plain is =
    sym e ∙ ap split_at_slash (sym is) ∙ split_at_slash-cut front back plain

abbrev pub IsSplit : List ℕ → List ℕ × List ℕ → Type 0
IsSplit id (provider, model) =
    ((provider ≡ []) × (model ≡ id) × IsWhole id)
    ⊎ ((provider ≢ []) × (model ≢ []) × NoSlash provider × (provider ++ b'/' ∷ model ≡ id))

none_cut : {p : List ℕ × List ℕ} → none ≡ some p → ⊥
none_cut h = cc

provider_and_model-IsSplit :
    (id : List ℕ) (o : Option (List ℕ × List ℕ))
    → split_at_slash id ≡ o
    → IsSplit id (provider_and_model id o)
provider_and_model-IsSplit id none e =
    inl (refl, refl, λ f b plain is. absurd (none_cut (cut_of id f b none e plain is)))
provider_and_model-IsSplit id (some ([], back)) e = inl (
  refl,
  refl,
  λ f b plain is. inl (sym (ap front_of (cut_of id f b (some ([], back)) e plain is))),
)
provider_and_model-IsSplit id (some (c ∷ front, [])) e = inl (
  refl,
  refl,
  λ f b plain is. inr (sym (ap back_of (cut_of id f b (some (c ∷ front, [])) e plain is))),
)
provider_and_model-IsSplit id (some (c ∷ front, d ∷ back)) e =
    let (whole, plain) = split_at_slash-found id (c ∷ front) (d ∷ back) e in
    inr ((λ e. cc), (λ e. cc), plain, whole)

-- A model id is cut at its first slash: what stands before is the provider, not empty and without
-- a slash, and what stands after, which may have slashes of its own, is the model, not empty;
-- an id whose first slash, if it has one, has nothing before it or nothing after it is handed over
-- whole, without a provider.
pub split_model_id-IsSplit : (id : List ℕ) → IsSplit id (split_model_id id)
unfolding split_model_id
split_model_id-IsSplit id = provider_and_model-IsSplit id (split_at_slash id) refl

module _ {E : Type 0}
    (compute_cost : TokenUsage → (provider model : List ℕ) → Attempt E SettledCost) where
  -- What the price table was asked, and that it answered the amount.
  abbrev pub IsPriced : CopilotUsage → List ℕ → ℕ → Type 0
  IsPriced u id usd =
      (i : ℕ) × (o : ℕ) × (b : SettledCost) × (u.input_tokens ≡ some i)
      × (u.output_tokens ≡ some o)
      × (compute_cost (record { input_tokens = i; output_tokens = o; total_tokens = i + o })
            (split_model_id id).0 (split_model_id id).1
          ≡ returned b)
      × (b.amount_usd ≡ some usd)

  of_breakdown-returned :
      (r : Attempt E SettledCost) (usd : ℕ)
      → (of_breakdown compute_cost r).amount_usd ≡ some usd
      → (b : SettledCost) × (r ≡ returned b) × (b.amount_usd ≡ some usd)
  of_breakdown-returned (returned b) usd e = (b, refl, e)
  of_breakdown-returned (threw f) usd e = cc

  from_tokens-IsPriced :
      (u : CopilotUsage) (id : List ℕ) (i o : Option ℕ) (usd : ℕ)
      → u.input_tokens ≡ i
      → u.output_tokens ≡ o
      → (from_tokens compute_cost id i o).amount_usd ≡ some usd
      → IsPriced u id usd
  from_tokens-IsPriced u id none o usd p q e = cc
  from_tokens-IsPriced u id (some i) none usd p q e = cc
  from_tokens-IsPriced u id (some i) (some o) usd p q e =
      let (b, returns, amount) = of_breakdown-returned _ usd e in (i, o, b, p, q, returns, amount)

  from_usage-source :
      (u : CopilotUsage) (id : List ℕ) (c : Option ℕ) (usd : ℕ)
      → u.cost_usd ≡ c
      → (from_usage compute_cost id u c).amount_usd ≡ some usd
      → (u.cost_usd ≡ some usd) ⊎ ((u.cost_usd ≡ none) × IsPriced u id usd)
  from_usage-source u id (some n) usd p e = inl (p ∙ e)
  from_usage-source u id none usd p e =
      inr (p, from_tokens-IsPriced u id u.input_tokens u.output_tokens usd refl refl e)

  -- An amount is settled only if the agent reported it, or if the agent reported none, both counts
  -- of tokens are there, and the price table answered it for those counts, their sum, and the
  -- provider and model of the id. In every other case, an error of the table among them, there is
  -- no amount.
  pub settle_cost-source :
      (usage : Option CopilotUsage) (id : List ℕ) (usd : ℕ)
      → (settle_cost compute_cost usage id).amount_usd ≡ some usd
      → (u : CopilotUsage) × (usage ≡ some u)
        × ((u.cost_usd ≡ some usd) ⊎ ((u.cost_usd ≡ none) × IsPriced u id usd))
  unfolding settle_cost
  settle_cost-source none id usd e = cc
  settle_cost-source (some u) id usd e = (u, refl, from_usage-source u id u.cost_usd usd refl e)
