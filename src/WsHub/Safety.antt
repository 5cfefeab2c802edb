-- ===== src/WsHub/Safety.antt =====
-- ws/hub.go: the sends and the hooks of the hub, run on a hub of open clients.
use link_up_server.Base.{
  ℕ, ◌≡◌, inl, inr, refl, sym, ap, ◌∙◌, subst, Bool, true, false, ◌||◌, Option, some, List, [], ◌∷◌,
  arith, lookup, has, IdSet, Bool-cases, Option-cases,
}
use link_up_server.WsHub.Channel.{owner}
use link_up_server.WsHub.Hub.{
  Hub, members, hub_of, send_to, send_to_user, send_to_users, send_to_all, all_clients,
  on_client_disconnect, run_hooks, is_user_online,
}
use link_up_server.WsHub.Members.{has-all_clients}
use link_up_server.WsHub.Live.{IsLive, Leaves, send_to-SendsTo}

-- An operation that ends without a panic, and closes clients that were registered at most.
pub record Runs (h : Hub) (o : Option Hub) : Type 0 where
  pub after : Hub
  pub gives : o ≡ some after
  pub closed : ℕ → Bool
  pub leaves : Leaves h closed after
  pub only : (x : ℕ) → closed x ≡ true → has x (members (owner x h.channels) h.clients) ≡ true

-- A client of some user is a client of its own user.
of_owner :
    (h : Hub) (u x : ℕ)
    → IsLive h
    → has x (members u h.clients) ≡ true
    → has x (members (owner x h.channels) h.clients) ≡ true
of_owner h u x live o = subst (λ v. has x (members v h.clients) ≡ true) (sym (live.owners u x o)) o

idle : (h : Hub) → IsLive h → Runs h (some h)
idle h live = record {
  after = h;
  gives = refl;
  closed = λ x. false;
  leaves = record {
    live = live;
    opened = λ x. refl;
    owned = λ x. refl;
    fewer = λ u x o. o;
    fewer_rooms = λ x o. o;
  };
  only = λ x o. absurd (ground arith);
}

Runs-trans : {h : Hub} {o o' : Option Hub} (r : Runs h o) → Runs r.after o' → Runs h o'
Runs-trans {h} r q = record {
  after = q.after;
  gives = q.gives;
  closed = λ x. r.closed x || q.closed x;
  leaves = record {
    live = q.leaves.live;
    opened = λ x. ground (arith, q.leaves.opened x, r.leaves.opened x);
    owned = λ x. q.leaves.owned x ∙ r.leaves.owned x;
    fewer = λ u x o. r.leaves.fewer u x (q.leaves.fewer u x o);
    fewer_rooms = λ x o. r.leaves.fewer_rooms x (q.leaves.fewer_rooms x o);
  };
  only = λ x o. ground (
    arith,
    q.only x,
    r.only x,
    r.leaves.owned x,
    r.leaves.fewer (owner x h.channels) x,
    ap (λ v. has x (members v r.after.clients)) {x = owner x r.after.channels}
        {y = owner x h.channels},
  );
}

send_to-Runs :
    (s : IdSet) (h : Hub)
    → IsLive h
    → ((x : ℕ) → has x s ≡ true → has x (members (owner x h.channels) h.clients) ≡ true)
    → Runs h (hub_of (send_to s h))
send_to-Runs s h live inside =
    let t = send_to-SendsTo s h live (λ x o. live.clients (owner x h.channels) x (inside x o)) in
    record {
      after = t.after;
      gives = ap hub_of t.gives;
      closed = λ x. has x t.stuck;
      leaves = t.leaves;
      only = λ x o. ground (arith, t.exact x, inside x);
    }

pub send_to_user-Runs : (user : ℕ) (h : Hub) → IsLive h → Runs h (send_to_user user h)
unfolding send_to_user members
send_to_user-Runs user h live = elim (Option-cases (lookup user h.clients)) [
  | inl missing ↦ rw (missing, send_to_user) (idle h live)
  | inr (s, found) ↦
      rw (found, send_to_user)
        (send_to-Runs s h live (λ x o. of_owner h user x live (rw (found, members) o)))
]

send_to_users-Runs : (users : List ℕ) (h : Hub) → IsLive h → Runs h (send_to_users users h)
unfolding send_to_users
send_to_users-Runs [] h live = idle h live
send_to_users-Runs (u ∷ us) h live =
    let r = send_to_user-Runs u h live in
    Runs-trans r (rw (r.gives, send_to_users) (send_to_users-Runs us r.after r.leaves.live))

pub send_to_all-Runs : (h : Hub) → IsLive h → Runs h (send_to_all h)
unfolding send_to_all
send_to_all-Runs h live =
    send_to-Runs (all_clients h.clients) h live
      (λ x o. let (u, found) = has-all_clients x h.clients live.keys o in of_owner h u x live found)

pub on_client_disconnect-Runs :
    (user : ℕ) (h : Hub) → IsLive h → Runs h (on_client_disconnect user h)
unfolding on_client_disconnect
on_client_disconnect-Runs user h live = elim (Bool-cases (is_user_online user h)) [
  | inl online ↦ rw online (idle h live)
  | inr offline ↦ rw offline (send_to_users-Runs (h.hook_sends user) h live)
]

pub run_hooks-Runs : (cs : List ℕ) (h : Hub) → IsLive h → Runs h (run_hooks cs h)
unfolding run_hooks
run_hooks-Runs [] h live = idle h live
run_hooks-Runs (c ∷ cs) h live =
    let r = on_client_disconnect-Runs (owner c h.channels) h live in
    Runs-trans r (rw (r.gives, run_hooks) (run_hooks-Runs cs r.after r.leaves.live))
