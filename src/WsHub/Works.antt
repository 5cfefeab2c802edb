-- ===== src/WsHub/Works.antt =====
-- ws/hub.go: the commands of the hub, and the operations on a hub of open clients, one by one.
use link_up_server.Base.{
  ℕ, ◌-◌, ◌≡◌, inl, inr, refl, ap, Bool, true, false, Option, none, some, arith, if◌then◌else◌,
  lookup, insert, lookup-insert, insert-Distinct, has, ◌==◌, Bool-cases, Option-cases,
}
use link_up_server.WsHub.Channel.{Channel, is_open, owner}
use link_up_server.WsHub.Hub.{
  Hub, members, send_to_user, send_to_all, add_to, join_chat, register, unregister,
  announce_offline, new_client, receive, close_send, broadcast, is_user_online, global_room,
}
use link_up_server.WsHub.Members.{occurs, occurs-add_to, members-add_to}
use link_up_server.WsHub.Live.{IsLive}
use link_up_server.WsHub.Safety.{Runs, send_to_all-Runs}

pub data Command : Type 0 where
  connect : ℕ → ℕ → Command
  take : ℕ → Command
  enrol : ℕ → Command
  join : ℕ → ℕ → Command
  send_user : ℕ → Command
  send_everyone : Command
  send_room : ℕ → Command
  leave : ℕ → Command

unfoldable pub step : Command → Hub → Option Hub
step (connect c user) h = some (new_client c user h)
step (take c) h = some (receive c h)
step (enrol c) h = register c h
step (join room c) h = some (join_chat room c h)
step (send_user user) h = send_to_user user h
step send_everyone h = send_to_all h
step (send_room room) h = broadcast room h
step (leave c) h = unregister c h

-- A new client has a new id; a client that registers, joins a room or unregisters has an open channel.
abbrev pub Allowed : Command → Hub → Type 0
Allowed (connect c user) h = lookup c h.channels ≡ none
Allowed (enrol c) h = is_open c h.channels ≡ true
Allowed (join room c) h = is_open c h.channels ≡ true
Allowed (leave c) h = is_open c h.channels ≡ true
Allowed _ h = Unit

-- A result that is no panic, and keeps open clients only.
abbrev pub Works : Option Hub → Type 0
Works o = (h : Hub) × (o ≡ some h) × IsLive h

pub works : {h : Hub} {o : Option Hub} → Runs h o → Works o
works r = (r.after, r.gives, r.leaves.live)

pub choose-Works : (b : Bool) {o o' : Option Hub} → Works o → Works o' → Works (if b then o else o')
choose-Works true p q = p
choose-Works false p q = q

pub connect-Works :
    (c user : ℕ) (h : Hub) → IsLive h → lookup c h.channels ≡ none → IsLive (new_client c user h)
unfolding new_client
connect-Works c user h live fresh =
    let ch : Channel = record { user_id = user; queued = 0; closed = false } in
    record {
      keys = live.keys;
      rooms = λ x o. ground (arith, live.rooms x o, lookup-insert x c ch h.channels);
      clients = λ u x o. ground (arith, live.clients u x o, lookup-insert x c ch h.channels);
      owners = λ u x o.
          ground
            (arith, live.owners u x o, live.clients u x o, lookup-insert x c ch h.channels, fresh);
    }

pub take-Works : (c : ℕ) (h : Hub) → IsLive h → IsLive (receive c h)
unfolding receive
take-Works c h live = elim (Option-cases (lookup c h.channels)) [
  | inl missing ↦ rw (missing, receive) live
  | inr (ch, found) ↦
      let ch' : Channel = record ch { queued = ch.queued - 1 } in
      rw (found, receive)
        (record {
          keys = live.keys;
          rooms = λ x o. ground (arith, live.rooms x o, lookup-insert x c ch' h.channels, found);
          clients =
              λ u x o. ground (arith, live.clients u x o, lookup-insert x c ch' h.channels, found);
          owners = λ u x o. ground (
            arith,
            live.owners u x o,
            live.clients u x o,
            lookup-insert x c ch' h.channels,
            found,
          );
        })
]

pub join-Works :
    (room c : ℕ) (h : Hub) → IsLive h → is_open c h.channels ≡ true → IsLive (join_chat room c h)
unfolding join_chat
join-Works room c h live on = record {
  keys = live.keys;
  rooms = λ x o. elim (Bool-cases (x == c)) [
    | inl same ↦ ground (arith, ap (λ y. is_open y h.channels) {x = x} {y = c})
    | inr other ↦ live.rooms x (occurs-add_to x room c h.rooms o (ground arith))
  ];
  clients = live.clients;
  owners = live.owners;
}

pub add-IsLive :
    (c : ℕ) (h : Hub)
    → IsLive h
    → is_open c h.channels ≡ true
    → IsLive (record h { clients = add_to (owner c h.channels) c h.clients })
unfolding add_to
add-IsLive c h live on = record {
  keys = insert-Distinct (owner c h.channels) _ h.clients live.keys;
  rooms = live.rooms;
  clients = λ u x o. ground (
    arith,
    members-add_to x u (owner c h.channels) c h.clients,
    live.clients u x,
    ap (λ y. is_open y h.channels) {x = x} {y = c},
  );
  owners = λ u x o. ground (
    arith,
    members-add_to x u (owner c h.channels) c h.clients,
    live.owners u x,
    ap (λ y. owner y h.channels) {x = x} {y = c},
  );
}

pub enrol-Works : (c : ℕ) (h : Hub) → IsLive h → is_open c h.channels ≡ true → Works (register c h)
unfolding register join_chat
enrol-Works c h live on =
    let h' = join_chat global_room c h in
    let live' = add-IsLive c h' (join-Works global_room c h live on) on in
    choose-Works h.has_presence (works (send_to_all-Runs _ live')) (_, refl, live')

pub close_send-Works :
    (c : ℕ) (h : Hub)
    → IsLive h
    → is_open c h.channels ≡ true
    → occurs c h.rooms ≡ false
    → ((u : ℕ) → has c (members u h.clients) ≡ false)
    → Works (close_send c h)
unfolding close_send
close_send-Works c h live on out gone = elim (Option-cases (lookup c h.channels)) [
  | inl missing ↦ absurd (ground arith)
  | inr (ch, found) ↦
      let shut : Channel = record ch { closed = true } in
      (
        record h { channels = insert c shut h.channels },
        ground arith,
        record {
          keys = live.keys;
          rooms = λ x o. ground (
            arith,
            live.rooms x o,
            lookup-insert x c shut h.channels,
            out,
            ap (λ y. occurs y h.rooms) {x = x} {y = c},
          );
          clients = λ u x o. ground (
            arith,
            live.clients u x o,
            lookup-insert x c shut h.channels,
            gone u,
            ap (λ y. has y (members u h.clients)) {x = x} {y = c},
          );
          owners =
              λ u x o. ground (arith, live.owners u x o, lookup-insert x c shut h.channels, found);
        },
      )
]

pub announce_offline-Works : (user : ℕ) (h : Hub) → IsLive h → Works (announce_offline user h)
announce_offline-Works user h live =
    choose-Works h.has_presence
      (choose-Works (is_user_online user h) (h, refl, live) (works (send_to_all-Runs h live)))
      (h, refl, live)
