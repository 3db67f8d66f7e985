-- ===== src/Copilot/Member/Joined.antt =====
-- The member's flag and the calls of the provider.
use theokit_plugins.Common.{Bool, true, false, String, Option, ℕ, ◌≡◌, ◌⊎◌, refl, inl, inr}
use theokit_plugins.Common.Async.{Attempt, returned, threw}
use theokit_plugins.Copilot.Member.{
  RealtimeProvider, Copilot, Fields, Method, joined_if, join, leave, set_typing, broadcast_message,
  broadcast_event,
}

module _ {W E : Type 0} (provider : RealtimeProvider W E) (copilot : Copilot) where
  -- The method does nothing: it returns, and no call reaches the provider.
  abbrev pub IsQuiet : Method provider copilot → Bool × W → Type 0
  IsQuiet m s = m s ≡ (returned tt, s)

  after_join :
      (r : Attempt E (Unit {0})) (w : W)
      → ((r ≡ returned tt)
          × (joined_if r ≡ true)
          × IsQuiet (join provider copilot) (joined_if r, w))
        ⊎ ((e : E) × (r ≡ threw e) × (joined_if r ≡ false))
  unfolding join
  after_join (returned _) w = inl (refl, refl, refl)
  after_join (threw e) w = inr (e, refl, refl)

  -- Whether the member was in the room or not: after a join that returns it is in the room and
  -- joining again is quiet; a join that throws leaves it out; after leaving, whether that returns
  -- or throws, it is out, and leaving again, typing and both broadcasts are quiet.
  pub join-leave :
      (joined : Bool) (w : W)
      → ((((join provider copilot (joined, w)).0 ≡ returned tt)
            × ((join provider copilot (joined, w)).1.0 ≡ true)
            × IsQuiet (join provider copilot) (join provider copilot (joined, w)).1)
          ⊎ ((e : E) × ((join provider copilot (joined, w)).0 ≡ threw e)
              × ((join provider copilot (joined, w)).1.0 ≡ false)))
        × ((leave provider copilot (joined, w)).1.0 ≡ false)
        × IsQuiet (leave provider copilot) (leave provider copilot (joined, w)).1
        × ((typing : Bool) (progress : Option ℕ)
            → IsQuiet
                (set_typing provider copilot typing progress)
                (leave provider copilot (joined, w)).1)
        × ((message : String) (extra : Fields)
            → IsQuiet
                (broadcast_message provider copilot message extra)
                (leave provider copilot (joined, w)).1)
        × ((event : String) (payload : Fields)
            → IsQuiet
                (broadcast_event provider copilot event payload)
                (leave provider copilot (joined, w)).1)
  unfolding join leave set_typing broadcast_message broadcast_event
  join-leave true w = (
    inl (refl, refl, refl),
    refl,
    refl,
    (λ typing progress. refl),
    (λ message extra. refl),
    (λ event payload. refl),
  )
  join-leave false w = (
    after_join _ _,
    refl,
    refl,
    (λ typing progress. refl),
    (λ message extra. refl),
    (λ event payload. refl),
  )
