-- ===== src/WsHub/Hub.antt =====
-- ws/hub.go: the hub and its operations. One operation is one step; a room or a user is a key of a
-- map to a set of clients, and `none` is a panic.
use link_up_server.Base.{
  ℕ, ◌-◌, ◌++◌, Bool, true, false, Option, none, some, List, [], ◌∷◌, if◌then◌else◌, ltb, Dict,
  lookup, insert, erase, IdSet, has, add, remove, length, ◌==◌,
}
use link_up_server.WsHub.Channel.{Channel, owner, send_each}

-- The fields of `Hub` but its channels, the clients' channels, and what it depends on: whether a
-- presence service is set, and the users to whom the hook sends when a user is gone.
pub record Hub : Type 0 where
  pub rooms : Dict IdSet
  pub clients : Dict IdSet
  pub channels : Dict Channel
  pub has_presence : Bool
  pub hook_sends : ℕ → List ℕ

-- the key "__global__"
abbrev pub global_room : ℕ
global_room = 0

-- `m[k]`, which is empty for a missing key
unfoldable pub members : ℕ → Dict IdSet → IdSet
members k m = elim (lookup k m) [ none ↦ [] | some s ↦ s ]

unfoldable pub add_to : ℕ → ℕ → Dict IdSet → Dict IdSet
add_to k c m = insert k (add c (members k m)) m

-- The elements, each of them once, as `range` visits them.
unfoldable pub elements : IdSet → List ℕ
elements [] = []
elements (c ∷ cs) = let rest = elements cs in if has c rest then rest else c ∷ rest

-- The loop of removeFromClientsMap over the rooms.
unfoldable pub purge : ℕ → Dict IdSet → Dict IdSet
purge c [] = []
purge c ((room, s) ∷ m) =
    let rest = purge c m in
    let s' = remove c s in if length s' == 0 then rest else (room, s') ∷ rest

-- Its second half, for the clients of a user.
unfoldable pub purge_at : ℕ → ℕ → Dict IdSet → Dict IdSet
purge_at user c m = elim (lookup user m) [
  | none ↦ m
  | some s ↦ let s' = remove c s in if length s' == 0 then erase user m else insert user s' m
]

unfoldable pub remove_from_clients_map : ℕ → ℕ → Hub → Hub
remove_from_clients_map c user h = record h {
  rooms = purge c h.rooms;
  clients = purge_at user c h.clients;
}

-- `removeFromClientsMap(c); close(c.send)`
unfoldable pub drop : ℕ → Hub → Option Hub
drop c h = elim (lookup c h.channels) [
  | none ↦ none
  | some ch ↦
      if ch.closed
      then none
      else let h' = remove_from_clients_map c ch.user_id h in
        some (record h' { channels = insert c (record ch { closed = true }) h.channels })
]

unfoldable pub drop_each : List ℕ → Hub → Option Hub
drop_each [] h = some h
drop_each (c ∷ cs) h = elim (drop c h) [ none ↦ none | some h' ↦ drop_each cs h' ]

-- Send to each of the clients, and drop the stuck ones; these are returned too.
unfoldable pub send_to : IdSet → Hub → Option (Hub × List ℕ)
send_to s h = elim (send_each (elements s) h.channels) [
  | none ↦ none
  | some (channels, stuck) ↦ elim (drop_each stuck (record h { channels = channels })) [
    | none ↦ none
    | some h' ↦ some (h', stuck)
  ]
]

abbrev pub hub_of : Option (Hub × List ℕ) → Option Hub
hub_of none = none
hub_of (some (h, stuck)) = some h

-- SendToUser and SendRawToUser
unfoldable pub send_to_user : ℕ → Hub → Option Hub
send_to_user user h = elim (lookup user h.clients) [ none ↦ some h | some s ↦ hub_of (send_to s h) ]

unfoldable pub send_to_users : List ℕ → Hub → Option Hub
send_to_users [] h = some h
send_to_users (u ∷ us) h = elim (send_to_user u h) [ none ↦ none | some h' ↦ send_to_users us h' ]

-- The union of the sets of clients.
unfoldable pub all_clients : Dict IdSet → IdSet
all_clients [] = []
all_clients ((user, s) ∷ m) = s ++ all_clients m

unfoldable pub send_to_all : Hub → Option Hub
send_to_all h = hub_of (send_to (all_clients h.clients) h)

unfoldable pub is_user_online : ℕ → Hub → Bool
is_user_online user h = ltb 0 (length (members user h.clients))

unfoldable pub join_chat : ℕ → ℕ → Hub → Hub
join_chat room c h = record h { rooms = add_to room c h.rooms }

-- NewClient: the client's channel, which is empty.
unfoldable pub new_client : ℕ → ℕ → Hub → Hub
new_client c user h = record h {
  channels = insert c (record { user_id = user; queued = 0; closed = false }) h.channels;
}

-- WritePump takes a message from the channel.
unfoldable pub receive : ℕ → Hub → Hub
receive c h = elim (lookup c h.channels) [
  | none ↦ h
  | some ch ↦ record h { channels = insert c (record ch { queued = ch.queued - 1 }) h.channels }
]

-- The case `<-h.register` of `Run`.
unfoldable pub register : ℕ → Hub → Option Hub
register c h =
    let user = owner c h.channels in
    let h' = record h { rooms = add_to global_room c h.rooms; clients = add_to user c h.clients } in
    if h.has_presence then send_to_all h' else some h'

-- The hook that cmd/main.go sets: only for a user without sockets, the cleanup of calls, which
-- sends to the parties.
unfoldable pub on_client_disconnect : ℕ → Hub → Option Hub
on_client_disconnect user h =
    if is_user_online user h then some h else send_to_users (h.hook_sends user) h

abbrev pub announce_offline : ℕ → Hub → Option Hub
announce_offline user h =
    if h.has_presence then if is_user_online user h then some h else send_to_all h else some h

-- `close(c.send)`
unfoldable pub close_send : ℕ → Hub → Option Hub
close_send c h = elim (lookup c h.channels) [
  | none ↦ none
  | some ch ↦
      if ch.closed
      then none
      else some (record h { channels = insert c (record ch { closed = true }) h.channels })
]

-- The case `<-h.unregister` of `Run`.
unfoldable pub unregister : ℕ → Hub → Option Hub
unregister c h =
    let user = owner c h.channels in
    elim (on_client_disconnect user (remove_from_clients_map c user h)) [
      | none ↦ none
      | some h' ↦ elim (close_send c h') [ none ↦ none | some h'' ↦ announce_offline user h'' ]
    ]

-- The hook for each client that a broadcast has dropped.
unfoldable pub run_hooks : List ℕ → Hub → Option Hub
run_hooks [] h = some h
run_hooks (c ∷ cs) h = elim (on_client_disconnect (owner c h.channels) h) [
  | none ↦ none
  | some h' ↦ run_hooks cs h'
]

-- The case `<-h.broadcast` of `Run`.
unfoldable pub broadcast : ℕ → Hub → Option Hub
broadcast room h = elim (send_to (members room h.rooms) h) [
  | none ↦ none
  | some (h', stuck) ↦ run_hooks stuck h'
]
