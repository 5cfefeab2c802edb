-- ===== src/WsHub/Live.antt =====
-- ws/hub.go: hubs of open clients, and what dropping and sending do to them.
use link_up_server.Base.{
  ℕ, ◌≡◌, ◌≢◌, inl, inr, refl, sym, ◌∙◌, Bool, true, false, ◌&&◌, some, List, [], ◌∷◌, arith,
  if◌then◌else◌, lookup, insert, lookup-insert, Distinct, has, IdSet, ◌==◌, Option-cases,
}
use link_up_server.WsHub.Channel.{is_open, is_full, owner}
use link_up_server.WsHub.Hub.{
  Hub, members, elements, drop, drop_each, send_to, purge, purge_at, remove_from_clients_map,
}
use link_up_server.WsHub.Sending.{Unique, has-elements, elements-Unique, send_each-Sent}
use link_up_server.WsHub.Members.{occurs, occurs-purge, members-purge_at, purge_at-Distinct}

-- Every client in a room or of a user has an open channel, and is a client of its own user.
pub record IsLive (h : Hub) : Type 0 where
  pub keys : Distinct h.clients
  pub rooms : (x : ℕ) → occurs x h.rooms ≡ true → is_open x h.channels ≡ true
  pub clients : (u x : ℕ) → has x (members u h.clients) ≡ true → is_open x h.channels ≡ true
  pub owners : (u x : ℕ) → has x (members u h.clients) ≡ true → owner x h.channels ≡ u

-- The hub after an operation that closes the channels in a list.
pub record Leaves (h : Hub) (closed : ℕ → Bool) (h' : Hub) : Type 0 where
  pub live : IsLive h'
  pub opened : (x : ℕ) → is_open x h'.channels ≡ (if closed x then false else is_open x h.channels)
  pub owned : (x : ℕ) → owner x h'.channels ≡ owner x h.channels
  pub fewer : (u x : ℕ) → has x (members u h'.clients) ≡ true → has x (members u h.clients) ≡ true
  pub fewer_rooms : (x : ℕ) → occurs x h'.rooms ≡ true → occurs x h.rooms ≡ true

pub remove-IsLive :
    (c : ℕ) (h : Hub) → IsLive h → IsLive (remove_from_clients_map c (owner c h.channels) h)
unfolding remove_from_clients_map
remove-IsLive c h live = record {
  keys = purge_at-Distinct (owner c h.channels) c h.clients live.keys;
  rooms = λ x o. live.rooms x (ground (arith, occurs-purge x c h.rooms));
  clients = λ u x o.
      live.clients u x (ground (arith, members-purge_at x u (owner c h.channels) c h.clients));
  owners = λ u x o.
      live.owners u x (ground (arith, members-purge_at x u (owner c h.channels) c h.clients));
}

pub record Closes (c : ℕ) (h : Hub) : Type 0 where
  pub after : Hub
  pub gives : drop c h ≡ some after
  pub leaves : Leaves h (λ x. x == c) after

pub drop-Closes : (c : ℕ) (h : Hub) → IsLive h → is_open c h.channels ≡ true → Closes c h
unfolding drop remove_from_clients_map
drop-Closes c h live on = elim (Option-cases (lookup c h.channels)) [
  | inl missing ↦ absurd (ground arith)
  | inr (ch, found) ↦
      let shut = record ch { closed = true } in
      let gone : (u x : ℕ)
          → has x (members u (purge_at ch.user_id c h.clients)) ≡ true
          → (x ≢ c) × (has x (members u h.clients) ≡ true) =
        λ u x o.
          ground (arith, found, members-purge_at x u ch.user_id c h.clients, live.owners u x) in
      record {
        after = record h {
          rooms = purge c h.rooms;
          clients = purge_at ch.user_id c h.clients;
          channels = insert c shut h.channels;
        };
        gives = ground arith;
        leaves = record {
          live = record {
            keys = purge_at-Distinct ch.user_id c h.clients live.keys;
            rooms = λ x o.
                ground (
                  arith,
                  occurs-purge x c h.rooms,
                  live.rooms x,
                  lookup-insert x c shut h.channels,
                );
            clients = λ u x o.
                ground (arith, gone u x o, live.clients u x, lookup-insert x c shut h.channels);
            owners = λ u x o.
                ground (arith, gone u x o, live.owners u x, lookup-insert x c shut h.channels);
          };
          opened = λ x. ground (arith, lookup-insert x c shut h.channels);
          owned = λ x. ground (arith, lookup-insert x c shut h.channels, found);
          fewer = λ u x o. (gone u x o).1;
          fewer_rooms = λ x o. ground (arith, occurs-purge x c h.rooms);
        };
      }
]

pub record ClosesEach (cs : List ℕ) (h : Hub) : Type 0 where
  pub after : Hub
  pub gives : drop_each cs h ≡ some after
  pub leaves : Leaves h (λ x. has x cs) after

pub drop_each-ClosesEach :
    (cs : List ℕ) (h : Hub)
    → IsLive h
    → Unique cs
    → ((x : ℕ) → has x cs ≡ true → is_open x h.channels ≡ true)
    → ClosesEach cs h
unfolding drop_each has
drop_each-ClosesEach [] h live unique opens = record {
  after = h;
  gives = refl;
  leaves = record {
    live = live;
    opened = λ x. refl;
    owned = λ x. refl;
    fewer = λ u x o. o;
    fewer_rooms = λ x o. o;
  };
}
drop_each-ClosesEach (c ∷ cs) h live unique opens =
    let d = drop-Closes c h live (opens c (ground arith)) in
    let r =
      drop_each-ClosesEach cs d.after d.leaves.live unique.1
        (λ x o. ground (arith, opens x, d.leaves.opened x, unique.0)) in
    record {
      after = r.after;
      gives = rw (d.gives, drop_each) r.gives;
      leaves = record {
        live = r.leaves.live;
        opened = λ x. ground (arith, r.leaves.opened x, d.leaves.opened x);
        owned = λ x. r.leaves.owned x ∙ d.leaves.owned x;
        fewer = λ u x o. d.leaves.fewer u x (r.leaves.fewer u x o);
        fewer_rooms = λ x o. d.leaves.fewer_rooms x (r.leaves.fewer_rooms x o);
      };
    }

-- The outcome of a send to a set of clients: exactly the stuck ones are closed.
pub record SendsTo (s : IdSet) (h : Hub) : Type 0 where
  pub after : Hub
  pub stuck : List ℕ
  pub gives : send_to s h ≡ some (after, stuck)
  pub leaves : Leaves h (λ x. has x stuck) after
  pub exact : (x : ℕ) → has x stuck ≡ (has x s && is_full x h.channels)

pub send_to-SendsTo :
    (s : IdSet) (h : Hub)
    → IsLive h
    → ((x : ℕ) → has x s ≡ true → is_open x h.channels ≡ true)
    → SendsTo s h
unfolding send_to
send_to-SendsTo s h live opens =
    let t =
      send_each-Sent (elements s) h.channels (elements-Unique s)
        (λ x o. opens x (sym (has-elements x s) ∙ o)) in
    let h' : Hub = record h { channels = t.after } in
    let live' : IsLive h' = record {
      keys = live.keys;
      rooms = λ x o. t.same.opened x ∙ live.rooms x o;
      clients = λ u x o. t.same.opened x ∙ live.clients u x o;
      owners = λ u x o. t.same.owners x ∙ live.owners u x o;
    } in
    let d =
      drop_each-ClosesEach t.stuck h' live' t.once
        (λ x o. ground (arith, t.exact x, has-elements x s, opens x, t.same.opened x)) in
    record {
      after = d.after;
      stuck = t.stuck;
      gives = rw (t.gives, send_to) (rw d.gives refl);
      leaves = record {
        live = d.leaves.live;
        opened = λ x. ground (arith, d.leaves.opened x, t.same.opened x);
        owned = λ x. d.leaves.owned x ∙ t.same.owners x;
        fewer = d.leaves.fewer;
        fewer_rooms = d.leaves.fewer_rooms;
      };
      exact = λ x. ground (arith, t.exact x, has-elements x s);
    }
