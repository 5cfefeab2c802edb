-- ===== src/Challenge/Service.antt =====
-- services/contribution.service.go: JoinChallenge and ProcessChallengePost. Whether RequireRole
-- finds the user among the members of the community comes with the call.
use link_up_server.Base.{
  ℕ, ◌+◌, ◌-◌, ◌*◌, ◌%◌, Bool, true, false, not, ◌||◌, none, some, List, [], ◌∷◌, if◌then◌else◌,
  ltb, Dict, lookup, insert, any_row,
}
use link_up_server.Text.{Text}
use link_up_server.Challenge.Tables.{
  CommunityChallenge, Challenges, JoinResult, not_found, inactive, not_member, not_started, ended,
  is_active, has_joined, join_challenge_atomic, increment_challenge_daily_award,
  increment_challenge_participant, find_active_challenges_by_hashtag,
}

abbrev pub max_challenge_posts_per_day : ℕ
max_challenge_posts_per_day = 3

-- The midnight before a time in nanoseconds, in UTC
abbrev pub challenge_award_date : ℕ → ℕ
challenge_award_date now = now - now % (24 * 3600 * 1000000000)

unfoldable pub join_challenge : Bool → ℕ → ℕ → ℕ → Challenges → JoinResult × Challenges
join_challenge member now user id db = elim (lookup id db.challenges) [
  | none ↦ (not_found, db)
  | some c ↦
      if not (is_active c.status)
      then (inactive, db)
      else if not member
      then (not_member, db)
      else if ltb now c.start_date
      then (not_started, db)
      else if ltb c.end_date now
      then (ended, db)
      else join_challenge_atomic id user c.max_participants db
]

-- One turn of the loop over the challenges, and whether it counts as a participation.
unfoldable pub award_post : ℕ → ℕ → ℕ → CommunityChallenge → Challenges → Bool × Challenges
award_post now user id c db =
    if ltb now c.start_date || ltb c.end_date now
    then (false, db)
    else if not (any_row (has_joined id user) db.participants)
    then (false, db)
    else let (awarded, db') =
        increment_challenge_daily_award id user (challenge_award_date now)
          max_challenge_posts_per_day c.points_per_post db in
      if awarded
      then (true, increment_challenge_participant id user c.points_per_post db')
      else (false, db')

unfoldable pub award_posts : ℕ → ℕ → Dict CommunityChallenge → Challenges → ℕ × Challenges
award_posts now user [] db = (0, db)
award_posts now user ((i, c) ∷ matched) db =
    let (counted, db') = award_post now user i c db in
    let (count, db'') = award_posts now user matched db' in
    (if counted then 1 + count else count, db'')

-- matchedChallenges
unfoldable pub add_matches :
    Dict CommunityChallenge → Dict CommunityChallenge → Dict CommunityChallenge
add_matches [] matched = matched
add_matches ((i, c) ∷ found) matched = add_matches found (insert i c matched)

unfoldable pub matched_challenges :
    (Text → Text → Bool)
    → ℕ
    → List Text
    → Dict CommunityChallenge
    → Dict CommunityChallenge
    → Dict CommunityChallenge
matched_challenges same_tag community [] d matched = matched
matched_challenges same_tag community (tag ∷ tags) d matched =
    matched_challenges same_tag community tags d
      (add_matches (find_active_challenges_by_hashtag same_tag community tag d) matched)

-- ProcessChallengePost for the hashtags of a post, with the number of event participations that it
-- adds to the user's contribution
unfoldable pub process_challenge_post :
    (Text → Text → Bool) → Bool → ℕ → ℕ → ℕ → List Text → Challenges → ℕ × Challenges
process_challenge_post same_tag member now user community hashtags db =
    if member
    then award_posts now user (matched_challenges same_tag community hashtags db.challenges []) db
    else (0, db)
