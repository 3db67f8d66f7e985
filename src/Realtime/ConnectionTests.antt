-- ===== src/Realtime/ConnectionTests.antt =====
-- A lobby whose members connect, are replaced and leave.
use theokit_plugins.Common.{
  String, true, false, none, some, [], ◌∷◌, ◌≡◌, refl, arith, ◌==◌, not, if◌then◌else◌, string_eq,
  nat_eq, codes_eq,
}
use theokit_plugins.Common.Assoc.{get, set, delete, has}
use theokit_plugins.Common.Async.{returned, threw, Ends}
use theokit_plugins.Realtime.Rooms.{
  Presence, fanout, join_room, leave_room, broadcast, update_presence, merge, get_presence,
  subscribe_room, unsubscribe,
}
use theokit_plugins.Realtime.Rooms.View.{state_of}
use theokit_plugins.Realtime.Connections.{
  RoomDescriptor, presence_invalid, not_authorized, yjs_storage_not_declared, presence_update,
  yjs_update, Runtime, register_room, unregister_room, connect, handle_connection, release,
  dispatch_frame, connection_key, arrive, take_over,
}
use theokit_plugins.Realtime.Connections.Passes.{is_member}
use theokit_plugins.Realtime.Connections.Sound.{IsSound}
use theokit_plugins.Realtime.Connections.Calls.{
  register, connect_as, call, run_calls, started, run_calls-IsSound, IsSuperseded,
  release-superseded,
}
use theokit_plugins.Realtime.Connections.Frames.{IsAccepted, dispatch_frame-Ends}

runs : Unit {0}
unfolding fanout join_room leave_room broadcast update_presence merge get_presence subscribe_room
    unsubscribe get set delete has register_room unregister_room arrive take_over connect
    handle_connection release dispatch_frame call run_calls
runs = tt

-- A presence conforms when it has a colour, and Eve is not welcome.
abbrev lobby : RoomDescriptor
lobby = record {
  id = "lobby";
  presence = λ p. if has "colour" p then some p else none;
  broadcast_schema = λ t. some t;
  stores_yjs = false;
  authorize = some (λ c. not (c == "eve"));
}

abbrev red : Presence
red = ("colour", "red") ∷ []

-- Ann connects, then Bob, then Ann again under the same name.
abbrev ann_reloads : Runtime
ann_reloads =
    run_calls
      (register lobby
        ∷ connect_as "lobby" "ann" (some red)
        ∷ connect_as "lobby" "bob" none
        ∷ connect_as "lobby" "ann" (some red)
        ∷ [])
      started

ann_reloads_test :
    (is_member "ann" (state_of (release 0 ann_reloads).provider "lobby") ≡ true)
    × (is_member "ann" (state_of (release 2 ann_reloads).provider "lobby") ≡ false)
    × ((handle_connection "lobby" "eve" none ann_reloads).0 ≡ threw not_authorized)
    × ((handle_connection "lobby" "dan" (some []) ann_reloads).0 ≡ threw presence_invalid)
    × ((dispatch_frame "lobby" "bob" (presence_update (("mood", "ok") ∷ [])) ann_reloads).0
        ≡ threw presence_invalid)
    × ((dispatch_frame "lobby" "bob" (presence_update red) ann_reloads).0 ≡ returned tt)
    × ((dispatch_frame "lobby" "bob" yjs_update ann_reloads).0 ≡ threw yjs_storage_not_declared)
unfolding runs
ann_reloads_test = (refl, refl, refl, refl, refl, refl, refl)

-- The handle of the first connection is released while the second awaits that it has joined: the
-- connection is live then, and its member is not in the room.
abbrev overlapping : Runtime
overlapping =
    let before = run_calls (register lobby ∷ connect_as "lobby" "ann" (some red) ∷ []) started in
    let (a, joining) = arrive "lobby" "ann" (some red) before in
    take_over "lobby" "ann" 1 a (release 0 joining)

overlapping_test :
    (get (connection_key "lobby" "ann") overlapping.live_connections ≡ some 1)
    × (is_member "ann" (state_of overlapping.provider "lobby") ≡ false)
unfolding runs
overlapping_test = (refl, refl)

ann_reloads-IsSound : IsSound ann_reloads
ann_reloads-IsSound = run_calls-IsSound _

first_of_ann-IsSuperseded : IsSuperseded 0 ann_reloads
unfolding runs
first_of_ann-IsSuperseded = record {
  handle = record { room_id = "lobby"; connection_id = "ann"; address = 0; released = false };
  given = refl;
  unreleased = refl;
  successor = 2;
  taken = refl;
  other = λ e. omega (arith, e);
}

run_calls-IsSound_example : IsSound ann_reloads
run_calls-IsSound_example = run_calls-IsSound (
    register lobby
    ∷ connect_as "lobby" "ann" (some red)
    ∷ connect_as "lobby" "bob" none
    ∷ connect_as "lobby" "ann" (some red)
    ∷ [])

release-superseded_example :
    ((q d : String)
      → is_member d (state_of ann_reloads.provider q) ≡ true
      → is_member d (state_of (release 0 ann_reloads).provider q) ≡ true)
    × ((release 0 ann_reloads).provider.sent ≡ ann_reloads.provider.sent)
    × ((release 0 ann_reloads).live_connections ≡ ann_reloads.live_connections)
release-superseded_example =
    release-superseded 0 ann_reloads ann_reloads-IsSound first_of_ann-IsSuperseded

dispatch_frame-Ends_example :
    Ends
      (λ u after.
        (room : RoomDescriptor) × (get "lobby" ann_reloads.rooms ≡ some room)
        × IsAccepted "lobby" "ann" (presence_update red) room ann_reloads after)
      (λ e after. after ≡ ann_reloads)
      (dispatch_frame "lobby" "ann" (presence_update red) ann_reloads)
dispatch_frame-Ends_example =
    dispatch_frame-Ends "lobby" "ann" (presence_update red) ann_reloads ann_reloads-IsSound.apart
