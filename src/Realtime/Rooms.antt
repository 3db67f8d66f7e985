-- ===== src/Realtime/Rooms.antt =====
-- packages/plugin-realtime/src/memory-provider.ts. The room objects are in a store by address,
-- since the function that ends a subscription holds on to the one it was made with. A listener is
-- a number, and `sent` records its calls in order; what a listener does with a frame, or throws,
-- has no effect on the provider (a listener that calls the provider back is left out).
pub mod View
use theokit_plugins.Common.{
  ℕ, suc, String, Bool, true, false, Option, none, some, List, [], ◌∷◌, ◌++◌, ◌&&◌, not, any,
  filter, map, nat_beq, if◌then◌else◌, ◌==◌, string_eq, nat_eq,
}
use theokit_plugins.Common.Assoc.{Assoc, get, set, delete, has}

-- A presence is an object of texts.
abbrev pub Presence : Type 0
Presence = Assoc String String

pub data Frame : Type 0 where
  joined : (connection : String) → Presence → Frame
  left : (connection : String) → Frame
  broadcasted : (connection event payload : String) → Frame
  presence_changed : (connection : String) → Presence → Frame

pub record RoomState : Type 0 where
  pub presences : Assoc String Presence
  pub listeners : List ℕ

pub record Provider : Type 0 where
  pub rooms : Assoc String ℕ
  pub states : Assoc ℕ RoomState
  pub next : ℕ
  pub sent : List (ℕ × Frame)

abbrev pub new_room : RoomState
new_room = record { presences = []; listeners = [] }

abbrev pub or_new : Option RoomState → RoomState
or_new none = new_room
or_new (some s) = s

abbrev pub state_at : ℕ → Provider → RoomState
state_at a s = or_new (get a s.states)

abbrev pub put_state : ℕ → RoomState → Provider → Provider
put_state a room s = record s { states = set a room s.states }

-- `ensureRoom`
abbrev pub ensured : String → Option ℕ → Provider → ℕ × Provider
ensured room_id (some a) s = (a, s)
ensured room_id none s = (
  s.next,
  record s {
    rooms = set room_id s.next s.rooms;
    states = set s.next new_room s.states;
    next = suc s.next;
  },
)

abbrev pub ensure_room : String → Provider → ℕ × Provider
ensure_room room_id s = ensured room_id (get room_id s.rooms) s

-- `fanout`, to the listeners of the room object.
abbrev pub to_all : Frame → List ℕ → List (ℕ × Frame)
to_all frame [] = []
to_all frame (l ∷ ls) = (l, frame) ∷ to_all frame ls

abbrev pub sent_to : Option ℕ → Frame → Provider → Provider
sent_to none frame s = s
sent_to (some a) frame s = record s { sent = s.sent ++ to_all frame (state_at a s).listeners }

unfoldable pub fanout : String → Frame → Provider → Provider
fanout room_id frame s = sent_to (get room_id s.rooms) frame s

abbrev pub or_nothing : Option Presence → Presence
or_nothing none = []
or_nothing (some p) = p

abbrev pub with_presence : String → Presence → RoomState → RoomState
with_presence c p room = record room { presences = set c p room.presences }

-- `joinRoom`
abbrev pub join_at : String → String → Presence → ℕ × Provider → Provider
join_at room_id c p (a, s) =
    fanout room_id (joined c p) (put_state a (with_presence c p (state_at a s)) s)

unfoldable pub join_room : String → String → Option Presence → Provider → Provider
unfolding fanout
join_room room_id c initial s = join_at room_id c (or_nothing initial) (ensure_room room_id s)

abbrev pub is_empty : {A : Type 0} → List A → Bool
is_empty [] = true
is_empty (a ∷ rest) = false

-- `if (state.presences.size === 0 && state.listeners.size === 0) rooms.delete(roomId)`
abbrev pub collect : String → ℕ → Provider → Provider
collect room_id a s =
    if is_empty (state_at a s).presences && is_empty (state_at a s).listeners
    then record s { rooms = delete room_id s.rooms }
    else s

-- `leaveRoom`
abbrev pub leave_at : String → String → Option ℕ → Provider → Provider
leave_at room_id c none s = s
leave_at room_id c (some a) s =
    let room = state_at a s in
    let rest = record room { presences = delete c room.presences } in
    if has c room.presences
    then collect room_id a (fanout room_id (left c) (put_state a rest s))
    else s

unfoldable pub leave_room : String → String → Provider → Provider
unfolding fanout
leave_room room_id c s = leave_at room_id c (get room_id s.rooms) s

-- `broadcast`
abbrev pub broadcast_at : String → Frame → Option ℕ → Provider → Provider
broadcast_at room_id frame none s = s
broadcast_at room_id frame (some a) s = fanout room_id frame s

unfoldable pub broadcast : String → String → String → String → Provider → Provider
unfolding fanout
broadcast room_id c event payload s =
    broadcast_at room_id (broadcasted c event payload) (get room_id s.rooms) s

-- `{ ...current, ...patch }`
unfoldable pub merge : Presence → Presence → Presence
merge current [] = current
merge current ((k, v) ∷ patch) = merge (set k v current) patch

-- `updatePresence`
abbrev pub change_at : String → String → Presence → ℕ → Option Presence → Provider → Provider
change_at room_id c patch a none s = s
change_at room_id c patch a (some current) s =
    let next = merge current patch in
    fanout room_id (presence_changed c next) (put_state a (with_presence c next (state_at a s)) s)

abbrev pub update_at : String → String → Presence → Option ℕ → Provider → Provider
update_at room_id c patch none s = s
update_at room_id c patch (some a) s =
    change_at room_id c patch a (get c (state_at a s).presences) s

unfoldable pub update_presence : String → String → Presence → Provider → Provider
unfolding fanout merge
update_presence room_id c patch s = update_at room_id c patch (get room_id s.rooms) s

abbrev presences_of : Option ℕ → Provider → Assoc String Presence
presences_of none s = []
presences_of (some a) s = (state_at a s).presences

-- `getPresence`
unfoldable pub get_presence : String → Provider → Assoc String Presence
get_presence room_id s = presences_of (get room_id s.rooms) s

-- `state.listeners.add(listener)`, of a set.
abbrev pub add_listener : ℕ → RoomState → RoomState
add_listener l room =
    if any (nat_beq l) room.listeners
    then room
    else record room { listeners = room.listeners ++ l ∷ [] }

abbrev subscribe_at : ℕ → ℕ × Provider → ℕ × Provider
subscribe_at l (a, s) = (a, put_state a (add_listener l (state_at a s)) s)

-- `subscribeRoom`; the address is what the function that is returned holds on to.
unfoldable pub subscribe_room : String → ℕ → Provider → ℕ × Provider
subscribe_room room_id l s = subscribe_at l (ensure_room room_id s)

abbrev pub without_listener : ℕ → RoomState → RoomState
without_listener l room = record room { listeners = filter (λ k. not (nat_beq l k)) room.listeners }

-- The function that `subscribeRoom` returns.
unfoldable pub unsubscribe : String → ℕ → ℕ → Provider → Provider
unsubscribe room_id a l s = collect room_id a (put_state a (without_listener l (state_at a s)) s)
