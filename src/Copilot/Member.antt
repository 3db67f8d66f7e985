-- ===== src/Copilot/Member.antt =====
-- packages/plugin-copilot/src/agent-room-member.ts: a copilot as a member of its room. The
-- realtime provider is a parameter, over a state of its own; what is sent is a list of fields.
pub mod Joined
use theokit_plugins.Common.{
  ℕ, String, Bool, true, false, Option, none, some, List, [], ◌∷◌, ◌++◌, if◌then◌else◌,
}
use Prim.Native.String
use theokit_plugins.Common.Async.{Attempt, Async, returned, threw}

pub data Value : Type 0 where
  text : String → Value
  flag : Bool → Value
  number : ℕ → Value

abbrev pub Fields : Type 0
Fields = List (String × Value)

-- `CopilotRealtimeProvider`
pub record RealtimeProvider (W E : Type 0) : Type 0 where
  pub join_room : (room_id connection_id : String) → Fields → Async W E (Unit {0})
  pub leave_room : (room_id connection_id : String) → Async W E (Unit {0})
  pub broadcast : (room_id connection_id event : String) → Fields → Async W E (Unit {0})
  pub update_presence : (room_id connection_id : String) → Fields → Async W E (Unit {0})

-- `CopilotDescriptor`, as far as it is read here: `identity` has the fields that are defined.
pub record Copilot : Type 0 where
  pub id : String
  pub room_id : String
  pub name : String
  pub identity : Fields

-- `connectionId`, as the constructor sets it.
abbrev pub connection_id : Copilot → String
connection_id c = String.◌++◌ "copilot:" c.id

-- `identityToPresence`
abbrev pub identity_to_presence : Copilot → Fields → Fields
identity_to_presence c initial =
    ("name", text c.name) ∷ initial ++ c.identity ++ ("isCopilot", flag true) ∷ []

abbrev progress_field : Option ℕ → Fields
progress_field none = []
progress_field (some n) = ("progress", number n) ∷ []

abbrev pub joined_if : {E : Type 0} → Attempt E (Unit {0}) → Bool
joined_if (returned _) = true
joined_if (threw e) = false

module _ {W E : Type 0} (provider : RealtimeProvider W E) (copilot : Copilot) where
  -- A method of the member, whose `joined` flag stands beside the provider's state.
  abbrev pub Method : Type 0
  Method = Async (Bool × W) E (Unit {0})

  abbrev pub if_joined : Async W E (Unit {0}) → Method
  if_joined m (joined, w) =
      let (r, w') = m w in if joined then (r, (true, w')) else (returned tt, (false, w))

  unfoldable pub join : Method
  join (joined, w) =
      let presence = identity_to_presence copilot (("typing", flag false) ∷ []) in
      let (r, w') = provider.join_room copilot.room_id (connection_id copilot) presence w in
      if joined then (returned tt, (true, w)) else (r, (joined_if r, w'))

  unfoldable pub leave : Method
  leave (joined, w) =
      let (r, w') = provider.leave_room copilot.room_id (connection_id copilot) w in
      if joined then (r, (false, w')) else (returned tt, (false, w))

  unfoldable pub set_typing : Bool → Option ℕ → Method
  set_typing typing progress = if_joined (
      provider.update_presence copilot.room_id (connection_id copilot)
        (("typing", flag typing) ∷ progress_field progress))

  unfoldable pub broadcast_message : String → Fields → Method
  broadcast_message message extra = if_joined (
      provider.broadcast copilot.room_id (connection_id copilot) "message" (
        ("role", text "assistant")
        ∷ ("text", text message)
        ∷ ("copilotId", text copilot.id)
        ∷ extra))

  unfoldable pub broadcast_event : String → Fields → Method
  broadcast_event event payload = if_joined (
      provider.broadcast copilot.room_id (connection_id copilot) event
        (payload ++ ("copilotId", text copilot.id) ∷ []))
