-- ===== src/Challenge/Machine.antt =====
-- services/contribution.service.go: the calls of JoinChallenge and ProcessChallengePost as steps.
use link_up_server.Base.{ℕ, Bool, List, [], Dict}
use link_up_server.Text.{Text}
use link_up_server.Challenge.Tables.{CommunityChallenge, Challenges}
use link_up_server.Challenge.Service.{join_challenge, process_challenge_post}

pub data Command : Type 0 where
  join : Bool → ℕ → ℕ → ℕ → Command
  post : (Text → Text → Bool) → Bool → ℕ → ℕ → ℕ → List Text → Command

unfoldable pub step : Command → Challenges → Challenges
step (join member now user id) db = (join_challenge member now user id db).1
step (post same_tag member now user community hashtags) db =
    (process_challenge_post same_tag member now user community hashtags db).1

-- Challenges that nobody has joined.
abbrev pub opened : Dict CommunityChallenge → Challenges
opened challenges = record { challenges = challenges; participants = []; awards = [] }

-- The tables that calls reach from some tables.
pub data Reach (db : Challenges) : Challenges → Type 0 where
  start : Reach db db
  next : (c : Command) (db' : Challenges) → Reach db db' → Reach db (step c db')
