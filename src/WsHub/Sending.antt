-- ===== src/WsHub/Sending.antt =====
-- ws/hub.go: sends to a set of open clients, and which of them are stuck.
use link_up_server.Base.{
  ℕ, suc, ◌≡◌, ◌≢◌, inl, inr, refl, ◌∙◌, true, false, ◌&&◌, some, List, [], ◌∷◌, arith, Dict,
  lookup, insert, lookup-insert, has, IdSet, leb, Bool-cases, Option-cases,
}
use link_up_server.WsHub.Channel.{Channel, capacity, is_open, is_full, owner, try_send, send_each}
use link_up_server.WsHub.Hub.{elements}

-- no id twice
abbrev pub Unique : List ℕ → Type 0
Unique [] = Unit
Unique (c ∷ cs) = (has c cs ≡ false) × Unique cs

pub has-elements : (x : ℕ) (s : IdSet) → has x (elements s) ≡ has x s
unfolding elements has
has-elements x [] = refl
has-elements x (c ∷ cs) = elim (Bool-cases (has c (elements cs))) [
  | inl twice ↦ rw (twice, elements) (ground (arith, has-elements x cs, has-elements c cs))
  | inr once ↦ rw (once, elements) (ground (arith, has-elements x cs))
]

pub elements-Unique : (s : IdSet) → Unique (elements s)
unfolding elements has
elements-Unique [] = tt
elements-Unique (c ∷ cs) = elim (Bool-cases (has c (elements cs))) [
  | inl twice ↦ rw (twice, elements) (elements-Unique cs)
  | inr once ↦ rw (once, elements) (once, elements-Unique cs)
]

-- What a send leaves of the channels.
pub record SameChannels (channels channels' : Dict Channel) : Type 0 where
  pub opened : (x : ℕ) → is_open x channels' ≡ is_open x channels
  pub owners : (x : ℕ) → owner x channels' ≡ owner x channels

SameChannels-trans : {a b c : Dict Channel} → SameChannels a b → SameChannels b c → SameChannels a c
SameChannels-trans p q = record {
  opened = λ x. q.opened x ∙ p.opened x;
  owners = λ x. q.owners x ∙ p.owners x;
}

pub record Tried (c : ℕ) (channels : Dict Channel) : Type 0 where
  pub after : Dict Channel
  pub gives : try_send c channels ≡ some (after, is_full c channels)
  pub same : SameChannels channels after
  pub rest : (x : ℕ) → x ≢ c → is_full x after ≡ is_full x channels

pub try_send-Tried :
    (c : ℕ) (channels : Dict Channel) → is_open c channels ≡ true → Tried c channels
unfolding try_send
try_send-Tried c channels opened = elim (Option-cases (lookup c channels)) [
  | inl missing ↦ absurd (ground arith)
  | inr (ch, found) ↦ elim (Bool-cases (leb capacity ch.queued)) [
    | inl full ↦ record {
      after = channels;
      gives = ground arith;
      same = record { opened = λ x. refl; owners = λ x. refl };
      rest = λ x ne. refl;
    }
    | inr room ↦
        let channels' = insert c (record ch { queued = suc ch.queued }) channels in
        record {
          after = channels';
          gives = ground arith;
          same = record {
            opened = λ x.
                ground (arith, lookup-insert x c (record ch { queued = suc ch.queued }) channels);
            owners = λ x.
                ground (arith, lookup-insert x c (record ch { queued = suc ch.queued }) channels);
          };
          rest = λ x ne.
              ground (arith, lookup-insert x c (record ch { queued = suc ch.queued }) channels);
        }
  ]
]

-- The outcome of a send to each client of a list.
pub record Sent (cs : List ℕ) (channels : Dict Channel) : Type 0 where
  pub after : Dict Channel
  pub stuck : List ℕ
  pub gives : send_each cs channels ≡ some (after, stuck)
  pub same : SameChannels channels after
  pub once : Unique stuck
  pub exact : (x : ℕ) → has x stuck ≡ (has x cs && is_full x channels)

pub send_each-Sent :
    (cs : List ℕ) (channels : Dict Channel)
    → Unique cs
    → ((x : ℕ) → has x cs ≡ true → is_open x channels ≡ true)
    → Sent cs channels
unfolding send_each has
send_each-Sent [] channels unique opened = record {
  after = channels;
  stuck = [];
  gives = refl;
  same = record { opened = λ x. refl; owners = λ x. refl };
  once = tt;
  exact = λ x. refl;
}
send_each-Sent (c ∷ cs) channels unique opens =
    let t = try_send-Tried c channels (opens c (ground arith)) in
    let s = send_each-Sent cs t.after unique.1 (λ x h. ground (arith, opens x, t.same.opened x)) in
    elim (Bool-cases (is_full c channels)) [
      | inl full ↦ record {
        after = s.after;
        stuck = c ∷ s.stuck;
        gives = rw (t.gives, send_each) (rw (s.gives, full) refl);
        same = SameChannels-trans t.same s.same;
        once = (ground (arith, s.exact c, unique.0), s.once);
        exact = λ x. ground (arith, s.exact x, t.rest x, unique.0);
      }
      | inr room ↦ record {
        after = s.after;
        stuck = s.stuck;
        gives = rw (t.gives, send_each) (rw (s.gives, room) refl);
        same = SameChannels-trans t.same s.same;
        once = s.once;
        exact = λ x. ground (arith, s.exact x, t.rest x, unique.0);
      }
    ]
