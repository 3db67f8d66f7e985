-- ===== src/Realtime/Connections.antt =====
-- packages/plugin-realtime/src/internal/runtime.ts over the provider of memory-provider.ts: the
-- connections of `RealtimeRuntime` and the frames that they send. The number of a handle is also
-- that of its `onFrame`, since each connection brings its own. Schemas and `authorize` are fields
-- of the room's descriptor; a call that awaits ends before the next call, so that
-- calls do not overlap; `arrive` and `take_over` are the two sides of the await of `joinRoom`.
pub mod Links
pub mod Passes
pub mod Sound
pub mod Released
pub mod Calls
pub mod Frames
use theokit_plugins.Common.{
  ℕ, suc, String, Bool, true, false, Option, none, some, List, [], ◌∷◌, ◌++◌, if◌then◌else◌, ◌==◌,
  string_eq, nat_eq, codes_eq, nat_beq,
}
use theokit_plugins.Common.Assoc.{Assoc, get, set, delete}
use theokit_plugins.Common.Async.{Attempt, returned, threw}
use theokit_plugins.Common.Text.{codes}
use theokit_plugins.Realtime.Rooms.{
  Presence, Provider, join_room, leave_room, broadcast, update_presence, get_presence, merge,
  subscribe_room, unsubscribe, or_nothing,
}

-- `RoomDescriptor`: `safeParse` gives the data of a value that conforms.
pub record RoomDescriptor : Type 0 where
  pub id : String
  pub presence : Presence → Option Presence
  pub broadcast_schema : (payload : String) → Option String
  pub stores_yjs : Bool
  pub authorize : Option ((connection_id : String) → Bool)

pub data RealtimeError : Type 0 where
  room_not_found not_authorized presence_invalid broadcast_invalid yjs_storage_not_declared
        yjs_provider_unsupported :
      RealtimeError

-- `InboundWireFrame`; the bytes of the last two are not read with this provider.
pub data InboundWireFrame : Type 0 where
  presence_update : (patch : Presence) → InboundWireFrame
  broadcast_frame : (event payload : String) → InboundWireFrame
  yjs_update yjs_awareness : InboundWireFrame

-- `RealtimeConnectionHandle`; the address is what its `unsubscribe` holds on to.
pub record Handle : Type 0 where
  pub room_id : String
  pub connection_id : String
  pub address : ℕ
  pub released : Bool

-- `RealtimeRuntime`, with the handles that it has given out, by number.
pub record Runtime : Type 0 where
  pub provider : Provider
  pub rooms : Assoc String RoomDescriptor
  pub live_connections : Assoc (List ℕ) ℕ
  pub handles : Assoc ℕ Handle
  pub next_handle : ℕ

-- `connectionKey`
abbrev pub connection_key : String → String → List ℕ
connection_key room_id connection_id = codes room_id ++ 0 ∷ codes connection_id

unfoldable pub register_room : RoomDescriptor → Runtime → Runtime
register_room room rt = record rt { rooms = set room.id room rt.rooms }

unfoldable pub unregister_room : String → Runtime → Runtime
unregister_room id rt = record rt { rooms = delete id rt.rooms }

abbrev pub allowed : Option (String → Bool) → String → Bool
allowed none c = true
allowed (some f) c = f c

-- The initial presence, if there is one and it conforms.
abbrev pub or_invalid : Option Presence → Attempt RealtimeError (Option Presence)
or_invalid none = threw presence_invalid
or_invalid (some p) = returned (some p)

abbrev pub validated_initial :
    RoomDescriptor → Option Presence → Attempt RealtimeError (Option Presence)
validated_initial room none = returned none
validated_initial room (some p) = or_invalid (room.presence p)

abbrev pub handle_of : String → String → ℕ → Handle
handle_of room_id c a = record {
  room_id = room_id;
  connection_id = c;
  address = a;
  released = false;
}

-- `handleConnection` once all is checked, up to the await of `joinRoom`, with the address of the
-- room that the subscription holds on to.
unfoldable pub arrive : String → String → Option Presence → Runtime → ℕ × Runtime
unfolding subscribe_room join_room
arrive room_id c initial rt =
    let n = rt.next_handle in
    let (a, subscribed) = subscribe_room room_id n rt.provider in
    (a, record rt { provider = join_room room_id c initial subscribed; next_handle = suc n })

-- What follows that await: the handle with the number `n` becomes the live one.
unfoldable pub take_over : String → String → (n address : ℕ) → Runtime → Runtime
take_over room_id c n a rt = record rt {
  live_connections = set (connection_key room_id c) n rt.live_connections;
  handles = set n (handle_of room_id c a) rt.handles;
}

-- Both, where no other call falls between them.
unfoldable pub connect : String → String → Option Presence → Runtime → Runtime
unfolding arrive take_over
connect room_id c initial rt =
    let (a, arrived) = arrive room_id c initial rt in take_over room_id c rt.next_handle a arrived

abbrev pub when_valid :
    String
    → String
    → Attempt RealtimeError (Option Presence)
    → Runtime
    → Attempt RealtimeError ℕ × Runtime
when_valid room_id c (threw e) rt = (threw e, rt)
when_valid room_id c (returned initial) rt = (returned rt.next_handle, connect room_id c initial rt)

abbrev pub when_found :
    String
    → String
    → Option Presence
    → Option RoomDescriptor
    → Runtime
    → Attempt RealtimeError ℕ × Runtime
when_found room_id c initial none rt = (threw room_not_found, rt)
when_found room_id c initial (some room) rt =
    if allowed room.authorize c
    then when_valid room_id c (validated_initial room initial) rt
    else (threw not_authorized, rt)

-- `handleConnection`, which gives the number of the handle.
unfoldable pub handle_connection :
    String → String → Option Presence → Runtime → Attempt RealtimeError ℕ × Runtime
unfolding connect
handle_connection room_id c initial rt = when_found room_id c initial (get room_id rt.rooms) rt

-- `releaseConnection`: nothing, if another handle has the connection by now.
abbrev pub leave_if_live : ℕ → Handle → Option ℕ → Runtime → Runtime
leave_if_live n h none rt = rt
leave_if_live n h (some m) rt =
    if nat_beq m n
    then record rt {
      live_connections = delete (connection_key h.room_id h.connection_id) rt.live_connections;
      provider = leave_room h.room_id h.connection_id rt.provider;
    }
    else rt

abbrev pub end_subscription : ℕ → Handle → Runtime → Runtime
end_subscription n h rt = record rt {
  handles = set n (record h { released = true }) rt.handles;
  provider = unsubscribe h.room_id h.address n rt.provider;
}

abbrev pub release_handle : ℕ → Option Handle → Runtime → Runtime
release_handle n none rt = rt
release_handle n (some h) rt =
    let key = connection_key h.room_id h.connection_id in
    if h.released
    then rt
    else leave_if_live n h (get key rt.live_connections) (end_subscription n h rt)

-- `release` of the handle with the number.
unfoldable pub release : ℕ → Runtime → Runtime
unfolding unsubscribe leave_room
release n rt = release_handle n (get n rt.handles) rt

abbrev pub on_provider :
    (Provider → Provider) → Runtime → Attempt RealtimeError (Unit {0}) × Runtime
on_provider f rt = (returned tt, record rt { provider = f rt.provider })

abbrev pub if_presence :
    String
    → String
    → Presence
    → Option Presence
    → Runtime
    → Attempt RealtimeError (Unit {0}) × Runtime
if_presence room_id c patch none rt = (threw presence_invalid, rt)
if_presence room_id c patch (some data_) rt = on_provider (update_presence room_id c patch) rt

abbrev pub if_payload :
    String → String → String → Option String → Runtime → Attempt RealtimeError (Unit {0}) × Runtime
if_payload room_id c event none rt = (threw broadcast_invalid, rt)
if_payload room_id c event (some payload) rt = on_provider (broadcast room_id c event payload) rt

-- `assertYjsRoom`, then the missing method of the provider.
abbrev pub refused_yjs : RoomDescriptor → RealtimeError
refused_yjs room = if room.stores_yjs then yjs_provider_unsupported else yjs_storage_not_declared

-- `(await this.provider.getPresence(roomId))[connectionId] ?? {}`
abbrev pub current_of : String → String → Runtime → Presence
current_of room_id c rt = or_nothing (get c (get_presence room_id rt.provider))

abbrev pub dispatch_in :
    String
    → String
    → InboundWireFrame
    → Option RoomDescriptor
    → Runtime
    → Attempt RealtimeError (Unit {0}) × Runtime
dispatch_in room_id c frame none rt = (threw room_not_found, rt)
dispatch_in room_id c (presence_update patch) (some room) rt =
    if_presence room_id c patch (room.presence (merge (current_of room_id c rt) patch)) rt
dispatch_in room_id c (broadcast_frame event payload) (some room) rt =
    if_payload room_id c event (room.broadcast_schema payload) rt
dispatch_in room_id c yjs_update (some room) rt = (threw (refused_yjs room), rt)
dispatch_in room_id c yjs_awareness (some room) rt = (threw (refused_yjs room), rt)

-- `dispatchFrame`
unfoldable pub dispatch_frame :
    String → String → InboundWireFrame → Runtime → Attempt RealtimeError (Unit {0}) × Runtime
unfolding update_presence broadcast get_presence merge
dispatch_frame room_id c frame rt = dispatch_in room_id c frame (get room_id rt.rooms) rt
