-- ===== src/WsHub/Tests.antt =====
-- The theorems on the sockets at concrete hubs.
use link_up_server.Base.{◌≡◌, refl, true, false, none, some, [], ◌∷◌, arith, lookup, has}
use link_up_server.WsHub.Hub.{Hub, members, send_to_user, unregister}
use link_up_server.WsHub.Members.{occurs}
use link_up_server.WsHub.Live.{IsLive}
use link_up_server.WsHub.Steps.{send_to_user-then_unregister}
use link_up_server.WsHub.Works.{Works}

-- Users 10 and 20 are connected by one client each; that of user 20 reads nothing any more.
abbrev two_clients : Hub
two_clients = record {
  rooms = (0, 1 ∷ 2 ∷ []) ∷ [];
  clients = (10, 1 ∷ []) ∷ (20, 2 ∷ []) ∷ [];
  channels =
      (1, record { user_id = 10; queued = 0; closed = false })
      ∷ (2, record { user_id = 20; queued = 256; closed = false })
      ∷ [];
  has_presence = true;
  hook_sends = λ u. 10 ∷ [];
}

two_clients-IsLive : IsLive two_clients
unfolding occurs members lookup has
two_clients-IsLive = record {
  keys = (refl, (refl, tt));
  rooms = λ x o. ground arith;
  clients = λ u x o. ground arith;
  owners = λ u x o. ground arith;
}

send_to_user-then_unregister_example :
    (h' : Hub) × (send_to_user 20 two_clients ≡ some h') × IsLive h' × (unregister 2 h' ≡ none)
unfolding members lookup has
send_to_user-then_unregister_example =
    send_to_user-then_unregister 20 2 two_clients two_clients-IsLive refl refl
