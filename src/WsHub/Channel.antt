-- ===== src/WsHub/Channel.antt =====
-- ws/hub.go: the `send` channel of a client, and a send on it that does not wait. What panics in Go
-- is `none`: a send on a closed channel, and a second close.
use link_up_server.Base.{
  ℕ, suc, Bool, true, false, not, Option, none, some, List, [], ◌∷◌, if◌then◌else◌, ltb, leb, Dict,
  lookup, insert,
}

-- What a channel keeps of its client: the user, the number of messages that wait, and whether it
-- has been closed.
pub record Channel : Type 0 where
  pub user_id : ℕ
  pub queued : ℕ
  pub closed : Bool

-- `make(chan []byte, 256)`
abbrev pub capacity : ℕ
capacity = 256

abbrev pub is_open : ℕ → Dict Channel → Bool
is_open c channels = elim (lookup c channels) [ none ↦ false | some ch ↦ not ch.closed ]

abbrev pub is_full : ℕ → Dict Channel → Bool
is_full c channels = elim (lookup c channels) [ none ↦ false | some ch ↦ leb capacity ch.queued ]

abbrev pub owner : ℕ → Dict Channel → ℕ
owner c channels = elim (lookup c channels) [ none ↦ 0 | some ch ↦ ch.user_id ]

-- `select { case c.send <- data: default: }`; the flag says that the client is stuck.
unfoldable pub try_send : ℕ → Dict Channel → Option (Dict Channel × Bool)
try_send c channels = elim (lookup c channels) [
  | none ↦ none
  | some ch ↦
      if ch.closed
      then none
      else if ltb ch.queued capacity
      then some (insert c (record ch { queued = suc ch.queued }) channels, false)
      else some (channels, true)
]

-- The loop over a snapshot of clients; the list is that of the stuck ones.
unfoldable pub send_each : List ℕ → Dict Channel → Option (Dict Channel × List ℕ)
send_each [] channels = some (channels, [])
send_each (c ∷ cs) channels = elim (try_send c channels) [
  | none ↦ none
  | some (channels', stuck) ↦ elim (send_each cs channels') [
    | none ↦ none
    | some (channels'', rest) ↦ some (channels'', if stuck then c ∷ rest else rest)
  ]
]
