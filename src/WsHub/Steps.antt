-- ===== src/WsHub/Steps.antt =====
-- ws/hub.go: the operations of the hub as commands, and what becomes of a client that is stuck.
use link_up_server.Base.{
  ℕ, ◌≡◌, inl, inr, refl, ap, true, false, ◌&&◌, none, some, arith, if◌then◌else◌, lookup, has,
  Option-cases,
}
use link_up_server.WsHub.Channel.{is_open, is_full, owner}
use link_up_server.WsHub.Hub.{
  Hub, members, hub_of, send_to_user, unregister, close_send, remove_from_clients_map,
}
use link_up_server.WsHub.Live.{IsLive, remove-IsLive, send_to-SendsTo}
use link_up_server.WsHub.Safety.{on_client_disconnect-Runs}
use link_up_server.WsHub.Works.{Works}

close_send-closed : (c : ℕ) (h : Hub) → is_open c h.channels ≡ false → close_send c h ≡ none
unfolding close_send
close_send-closed c h off = ground arith

unregister-closed :
    (c : ℕ) (h : Hub) → IsLive h → is_open c h.channels ≡ false → unregister c h ≡ none
unfolding unregister remove_from_clients_map
unregister-closed c h live off =
    let user = owner c h.channels in
    let h' = remove_from_clients_map c user h in
    let r = on_client_disconnect-Runs user h' (remove-IsLive c h live) in
    rw (r.gives, unregister)
      (rw (close_send-closed c r.after (ground (arith, r.leaves.opened c))) refl)

-- If every client in a room or of a user has an open channel, SendToUser succeeds when one of the user's clients has a full
-- channel, and in the hub that it leaves, the unregistration of that client, which follows whenever its connection ends, panics: its channel
-- would be closed a second time.
pub send_to_user-then_unregister :
    (user c : ℕ) (h : Hub)
    → IsLive h
    → has c (members user h.clients) ≡ true
    → is_full c h.channels ≡ true
    → (h' : Hub) × (send_to_user user h ≡ some h') × IsLive h' × (unregister c h' ≡ none)
unfolding send_to_user members has
send_to_user-then_unregister user c h live here full = elim (Option-cases (lookup user h.clients)) [
  | inl missing ↦ absurd (ground arith)
  | inr (s, found) ↦
      let inside : has c s ≡ true = ground (arith, found) in
      let t = send_to-SendsTo s h live (λ x o. live.clients user x (rw (found, members) o)) in
      (
        t.after,
        rw (found, send_to_user) (ap hub_of t.gives),
        t.leaves.live,
        unregister-closed c t.after t.leaves.live (ground (arith, t.leaves.opened c, t.exact c)),
      )
]

-- If every client in a room or of a user has an open channel, SendToUser does not panic, and it closes exactly the
-- channels of the user's clients that are full.
pub send_to_user-drops :
    (user : ℕ) (h : Hub)
    → IsLive h
    → (h' : Hub) × (send_to_user user h ≡ some h')
      × ((x : ℕ)
          → is_open x h'.channels ≡ (
              if has x (members user h.clients) && is_full x h.channels
              then false
              else is_open x h.channels))
unfolding send_to_user members has
send_to_user-drops user h live = elim (Option-cases (lookup user h.clients)) [
  | inl missing ↦ (h, rw (missing, send_to_user) refl, λ x. ground (arith, missing))
  | inr (s, found) ↦
      let t = send_to-SendsTo s h live (λ x o. live.clients user x (rw (found, members) o)) in
      (
        t.after,
        rw (found, send_to_user) (ap hub_of t.gives),
        λ x. ground (arith, found, t.leaves.opened x, t.exact x),
      )
]
