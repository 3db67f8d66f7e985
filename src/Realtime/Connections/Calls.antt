-- ===== src/Realtime/Connections/Calls.antt =====
-- Any sequence of calls of the runtime.
use theokit_plugins.Common.{
  ℕ, String, true, false, Option, none, some, List, [], ◌∷◌, ◌≡◌, ◌≢◌, refl, ◌∙◌, inl, inr,
  Bool-cases, string_eq, nat_eq, codes_eq, nat_beq, beq_ne, append-nil,
}
use theokit_plugins.Common.Assoc.{Assoc, get}
use theokit_plugins.Common.Async.{Attempt, returned, threw}
use theokit_plugins.Realtime.Rooms.{Presence, merge}
use theokit_plugins.Realtime.Rooms.View.{state_of}
use theokit_plugins.Realtime.Rooms.View.Members.{unsubscribe-Becomes}
use theokit_plugins.Realtime.Connections.{
  RoomDescriptor, RealtimeError, InboundWireFrame, presence_update, broadcast_frame, yjs_update,
  yjs_awareness, Handle, Runtime, connection_key, handle_connection, release, dispatch_frame,
  register_room, unregister_room, when_valid, when_found, validated_initial, allowed, if_presence,
  if_payload, dispatch_in, current_of,
}
use theokit_plugins.Realtime.Connections.Passes.{
  is_member, broadcast-Passes, update_presence-Passes, unsubscribe-Passes,
}
use theokit_plugins.Realtime.Connections.Sound.{IsSound, Passes-IsSound, connect-IsSound}
use theokit_plugins.Realtime.Connections.Released.{release-IsSound}

pub data Call : Type 0 where
  register : RoomDescriptor → Call
  unregister : (id : String) → Call
  connect_as : (room_id connection_id : String) → Option Presence → Call
  release_number : ℕ → Call
  dispatch : (room_id connection_id : String) → InboundWireFrame → Call

unfoldable pub call : Call → Runtime → Runtime
unfolding register_room unregister_room handle_connection release dispatch_frame
call (register room) rt = register_room room rt
call (unregister id) rt = unregister_room id rt
call (connect_as r c initial) rt = (handle_connection r c initial rt).1
call (release_number n) rt = release n rt
call (dispatch r c frame) rt = (dispatch_frame r c frame rt).1

unfoldable pub run_calls : List Call → Runtime → Runtime
unfolding call
run_calls [] rt = rt
run_calls (c ∷ cs) rt = run_calls cs (call c rt)

abbrev pub started : Runtime
started = record {
  provider = record { rooms = []; states = []; next = 0; sent = [] };
  rooms = [];
  live_connections = [];
  handles = [];
  next_handle = 0;
}

started-IsSound : IsSound started
unfolding get
started-IsSound = record {
  apart = record { below = tt; apart = λ r q a here there. cc };
  fresh = λ n h e. cc;
  linked = λ n h e u. cc;
  held = λ key n e. cc;
}

rooms-IsSound :
    (rt : Runtime) (m : Assoc String RoomDescriptor)
    → IsSound rt
    → IsSound (record rt { rooms = m })
rooms-IsSound rt m v = record {
  apart = v.apart;
  fresh = v.fresh;
  linked = v.linked;
  held = λ key n e.
      let x = v.held key n e in
      record {
        handle = x.handle;
        given = x.given;
        unreleased = x.unreleased;
        keyed = x.keyed;
        present = x.present;
      };
}

valid-IsSound :
    (r c : String) (v : Attempt RealtimeError (Option Presence)) (rt : Runtime)
    → IsSound rt
    → IsSound (when_valid r c v rt).1
valid-IsSound r c (threw e) rt h = h
valid-IsSound r c (returned initial) rt h = connect-IsSound r c initial rt h

found-IsSound :
    (r c : String) (initial : Option Presence) (o : Option RoomDescriptor) (rt : Runtime)
    → IsSound rt
    → IsSound (when_found r c initial o rt).1
found-IsSound r c initial none rt h = h
found-IsSound r c initial (some room) rt h = elim (Bool-cases (allowed room.authorize c)) [
  | inl welcome ↦ rw welcome (valid-IsSound r c (validated_initial room initial) rt h)
  | inr turned_away ↦ rw turned_away h
]

if_presence-IsSound :
    (r c : String) (patch : Presence) (o : Option Presence) (rt : Runtime)
    → IsSound rt
    → IsSound (if_presence r c patch o rt).1
if_presence-IsSound r c patch none rt v = v
if_presence-IsSound r c patch (some p) rt v =
    Passes-IsSound rt _ v (update_presence-Passes rt.provider v.apart r c patch)

if_payload-IsSound :
    (r c event : String) (o : Option String) (rt : Runtime)
    → IsSound rt
    → IsSound (if_payload r c event o rt).1
if_payload-IsSound r c event none rt v = v
if_payload-IsSound r c event (some payload) rt v =
    Passes-IsSound rt _ v (broadcast-Passes rt.provider v.apart r c event payload)

dispatch_in-IsSound :
    (r c : String) (frame : InboundWireFrame) (o : Option RoomDescriptor) (rt : Runtime)
    → IsSound rt
    → IsSound (dispatch_in r c frame o rt).1
dispatch_in-IsSound r c frame none rt v = v
dispatch_in-IsSound r c (presence_update patch) (some room) rt v =
    if_presence-IsSound r c patch (room.presence (merge (current_of r c rt) patch)) rt v
dispatch_in-IsSound r c (broadcast_frame event payload) (some room) rt v =
    if_payload-IsSound r c event (room.broadcast_schema payload) rt v
dispatch_in-IsSound r c yjs_update (some room) rt v = v
dispatch_in-IsSound r c yjs_awareness (some room) rt v = v

call-IsSound : (k : Call) (rt : Runtime) → IsSound rt → IsSound (call k rt)
unfolding call register_room unregister_room handle_connection dispatch_frame
call-IsSound (register room) rt v = rooms-IsSound rt _ v
call-IsSound (unregister id) rt v = rooms-IsSound rt _ v
call-IsSound (connect_as r c initial) rt v = found-IsSound r c initial (get r rt.rooms) rt v
call-IsSound (release_number n) rt v = release-IsSound n rt v
call-IsSound (dispatch r c frame) rt v = dispatch_in-IsSound r c frame (get r rt.rooms) rt v

run_calls-kept : (ks : List Call) (rt : Runtime) → IsSound rt → IsSound (run_calls ks rt)
unfolding run_calls
run_calls-kept [] rt v = v
run_calls-kept (k ∷ ks) rt v = run_calls-kept ks (call k rt) (call-IsSound k rt v)

-- After any calls that do not overlap, each live connection is that of a handle that was not released, and its member
-- is in the room; each handle that was not released listens to its room.
pub run_calls-IsSound : (ks : List Call) → IsSound (run_calls ks started)
run_calls-IsSound ks = run_calls-kept ks started started-IsSound

-- A handle whose connection another one has taken over.
pub record IsSuperseded (n : ℕ) (rt : Runtime) : Type 0 where
  pub handle : Handle
  pub given : get n rt.handles ≡ some handle
  pub unreleased : handle.released ≡ false
  pub successor : ℕ
  pub taken :
      get (connection_key handle.room_id handle.connection_id) rt.live_connections ≡ some successor
  pub other : successor ≢ n

-- Releasing a superseded handle takes no member out of any room, tells nobody anything, and leaves
-- the live connections as they are.
pub release-superseded :
    (n : ℕ) (rt : Runtime)
    → IsSound rt
    → IsSuperseded n rt
    → ((q d : String)
        → is_member d (state_of rt.provider q) ≡ true
        → is_member d (state_of (release n rt).provider q) ≡ true)
      × ((release n rt).provider.sent ≡ rt.provider.sent)
      × ((release n rt).live_connections ≡ rt.live_connections)
unfolding release
release-superseded n rt v h =
    let (here, hears) = v.linked n h.handle h.given h.unreleased in
    let passes = unsubscribe-Passes rt.provider v.apart h.handle.room_id h.handle.address n here in
    let b = unsubscribe-Becomes rt.provider h.handle.room_id v.apart h.handle.address n here in
    let differ : nat_beq h.successor n ≡ false = beq_ne h.successor n h.other in
    rw (h.given, h.unreleased, h.taken, differ)
      ((λ q d e. passes.members q d tt e), b.sent ∙ append-nil rt.provider.sent, refl)
