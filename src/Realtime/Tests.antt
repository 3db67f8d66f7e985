-- ===== src/Realtime/Tests.antt =====
-- A room.
use theokit_plugins.Common.{none, [], ◌∷◌, ◌≡◌, refl, string_eq, nat_eq}
use theokit_plugins.Common.Assoc.{get, set, delete, has}
use theokit_plugins.Realtime.Rooms.{
  Provider, fanout, join_room, leave_room, broadcast, update_presence, merge, get_presence,
  subscribe_room, unsubscribe,
}

runs : Unit {0}
unfolding fanout join_room leave_room broadcast update_presence merge get_presence subscribe_room
    unsubscribe get set delete has
runs = tt

abbrev started : Provider
started = record { rooms = []; states = []; next = 0; sent = [] }

-- A listener comes and goes, which ends the room; a member joins, which makes it anew; the end of
-- the first subscription, called a second time, takes the member's room away.
ended_twice_test :
    let subscribed = subscribe_room "lobby" 1 started in
    let ended = unsubscribe "lobby" subscribed.0 1 subscribed.1 in
    let with_ann = join_room "lobby" "ann" none ended in
    let ended_twice = unsubscribe "lobby" subscribed.0 1 with_ann in
    (get_presence "lobby" with_ann ≡ ("ann", []) ∷ []) × (get_presence "lobby" ended_twice ≡ [])
unfolding runs
ended_twice_test = (refl, refl)
