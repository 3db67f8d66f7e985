-- ===== src/Realtime/Connections/Frames.antt =====
-- What a frame may change: nothing, if its dispatch throws, and otherwise what the room's schemas
-- accept.
use theokit_plugins.Common.{
  String, Option, none, some, ◌≡◌, ◌≢◌, refl, ap, arith, inl, inr, Option-cases, string_eq, nat_eq,
  beq_self,
}
use theokit_plugins.Common.Assoc.{get, get-set}
use theokit_plugins.Common.Async.{Ends}
use theokit_plugins.Realtime.Rooms.{Presence, merge, broadcast, get_presence, or_nothing}
use theokit_plugins.Realtime.Rooms.View.{state_of, IsApart}
use theokit_plugins.Realtime.Rooms.View.Changes.{update_presence-Becomes}
use theokit_plugins.Realtime.Connections.{
  RoomDescriptor, InboundWireFrame, presence_update, broadcast_frame, yjs_update, yjs_awareness,
  Runtime, dispatch_frame, dispatch_in, if_presence, if_payload, current_of,
}

-- What the frame of a connection of the room did: a presence that the room's schema accepts is
-- stored, if the connection is a member, or the payload that the schema read is broadcast.
abbrev pub IsAccepted :
    (r c : String) → InboundWireFrame → RoomDescriptor → (before after : Runtime) → Type 0
IsAccepted r c (presence_update patch) room before after =
    (room.presence (merge (or_nothing (get c (state_of before.provider r).presences)) patch) ≢ none)
    × ((current : Presence)
        → get c (state_of before.provider r).presences ≡ some current
        → get c (state_of after.provider r).presences ≡ some (merge current patch))
IsAccepted r c (broadcast_frame event payload) room before after =
    (read : String) × (room.broadcast_schema payload ≡ some read)
    × (after ≡ record before { provider = broadcast r c event read before.provider })
IsAccepted r c yjs_update room before after = ⊥
IsAccepted r c yjs_awareness room before after = ⊥

seen_presence :
    (r c : String) (rt : Runtime)
    → current_of r c rt ≡ or_nothing (get c (state_of rt.provider r).presences)
unfolding get_presence
seen_presence r c rt = elim (Option-cases (get r rt.provider.rooms)) [
  | inl missing ↦ rw missing refl
  | inr (a, there) ↦ rw there refl
]

presence-Ends :
    (r c : String) (patch : Presence) (room : RoomDescriptor) (o : Option Presence) (rt : Runtime)
    → IsApart rt.provider
    → room.presence (merge (current_of r c rt) patch) ≡ o
    → Ends
        (λ u after.
          (x : RoomDescriptor) × (some room ≡ some x)
          × IsAccepted r c (presence_update patch) x rt after)
        (λ e after. after ≡ rt)
        (if_presence r c patch o rt)
presence-Ends r c patch room none rt h e = refl
presence-Ends r c patch room (some p) rt h e = (
  room,
  refl,
  (
    (λ bad. ground (
      arith,
      e,
      bad,
      seen_presence r c rt,
      ap (λ x. room.presence (merge x patch)) (seen_presence r c rt),
    )),
    (λ current member.
        rw
          (
            ((update_presence-Becomes rt.provider r h c patch).0 current member).now r,
            beq_self r,
            get-set,
            beq_self c,
          )
          refl),
  ),
)

payload-Ends :
    (r c event payload : String) (room : RoomDescriptor) (o : Option String) (rt : Runtime)
    → room.broadcast_schema payload ≡ o
    → Ends
        (λ u after.
          (x : RoomDescriptor) × (some room ≡ some x)
          × IsAccepted r c (broadcast_frame event payload) x rt after)
        (λ e after. after ≡ rt)
        (if_payload r c event o rt)
payload-Ends r c event payload room none rt e = refl
payload-Ends r c event payload room (some read) rt e = (room, refl, (read, e, refl))

dispatch_in-Ends :
    (r c : String) (frame : InboundWireFrame) (o : Option RoomDescriptor) (rt : Runtime)
    → IsApart rt.provider
    → Ends
        (λ u after. (room : RoomDescriptor) × (o ≡ some room) × IsAccepted r c frame room rt after)
        (λ e after. after ≡ rt)
        (dispatch_in r c frame o rt)
dispatch_in-Ends r c frame none rt h = refl
dispatch_in-Ends r c (presence_update patch) (some room) rt h =
    presence-Ends r c patch room _ rt h refl
dispatch_in-Ends r c (broadcast_frame event payload) (some room) rt h =
    payload-Ends r c event payload room _ rt refl
dispatch_in-Ends r c yjs_update (some room) rt h = refl
dispatch_in-Ends r c yjs_awareness (some room) rt h = refl

-- A frame whose dispatch throws changes nothing. One that is accepted is of a room that is
-- registered: a patch of presence leaves a member with the merged presence, which the room's
-- schema accepts, and a broadcast sends what the schema read. No CRDT frame is accepted.
pub dispatch_frame-Ends :
    (r c : String) (frame : InboundWireFrame) (rt : Runtime)
    → IsApart rt.provider
    → Ends
        (λ u after.
          (room : RoomDescriptor) × (get r rt.rooms ≡ some room)
          × IsAccepted r c frame room rt after)
        (λ e after. after ≡ rt)
        (dispatch_frame r c frame rt)
unfolding dispatch_frame
dispatch_frame-Ends r c frame rt h = dispatch_in-Ends r c frame (get r rt.rooms) rt h
