-- ===== src/Challenge/Tables.antt =====
-- models/community_challenge.model.go, challenge_participant.model.go, challenge_daily_award.model.go
-- and the statements on them of repository/contribution.repository.go. Ids of rows that nothing
-- reads are left out, and so are titles, descriptions, creators and the times of the rows.
use link_up_server.Base.{
  ℕ, ◌+◌, Bool, true, false, ◌&&◌, Option, none, some, List, [], ◌∷◌, if◌then◌else◌, leb, ◌==◌,
  Dict, lookup, any_row, change_rows,
}
use link_up_server.Text.{Text}

pub data ChallengeStatus : Type 0 where
  active completed cancelled : ChallengeStatus

pub record CommunityChallenge : Type 0 where
  pub community_id : ℕ
  pub hashtag : Text
  pub points_per_post : ℕ
  pub start_date : ℕ
  pub end_date : ℕ
  pub max_participants : Option ℕ
  pub status : ChallengeStatus

pub record ChallengeParticipant : Type 0 where
  pub challenge_id : ℕ
  pub user_id : ℕ
  pub posts_count : ℕ
  pub total_points_earned : ℕ

-- One row for a challenge, a user and a day.
pub record ChallengeDailyAward : Type 0 where
  pub challenge_id : ℕ
  pub user_id : ℕ
  pub award_date : ℕ
  pub posts_count : ℕ
  pub points_earned : ℕ

pub record Challenges : Type 0 where
  pub challenges : Dict CommunityChallenge
  pub participants : List ChallengeParticipant
  pub awards : List ChallengeDailyAward

abbrev pub is_active : ChallengeStatus → Bool
is_active active = true
is_active completed = false
is_active cancelled = false

abbrev pub in_challenge : ℕ → ChallengeParticipant → Bool
in_challenge id p = p.challenge_id == id

abbrev pub has_joined : ℕ → ℕ → ChallengeParticipant → Bool
has_joined id user p = p.challenge_id == id && p.user_id == user

abbrev pub of_day : ℕ → ℕ → ℕ → ChallengeDailyAward → Bool
of_day id user date a = a.challenge_id == id && a.user_id == user && a.award_date == date

-- `Where(...).Count(...)`
unfoldable pub count_rows {ℓ} : {A : Type ℓ} → (A → Bool) → List A → ℕ
count_rows p [] = 0
count_rows p (x ∷ xs) = if p x then 1 + count_rows p xs else count_rows p xs

pub data JoinResult : Type 0 where
  joined not_found inactive not_member not_started ended already_joined limit_hit failed :
      JoinResult

-- `maxParticipants != nil && count >= *maxParticipants`
abbrev pub limit_reached : Option ℕ → ℕ → Bool
limit_reached none count = false
limit_reached (some m) count = leb m count

-- JoinChallengeAtomic, a transaction that locks the challenge's row
unfoldable pub join_challenge_atomic : ℕ → ℕ → Option ℕ → Challenges → JoinResult × Challenges
join_challenge_atomic id user max db = elim (lookup id db.challenges) [
  | none ↦ (failed, db)
  | some c ↦
      if any_row (has_joined id user) db.participants
      then (already_joined, db)
      else if limit_reached max (count_rows (in_challenge id) db.participants)
      then (limit_hit, db)
      else (
        joined,
        record db {
          participants =
              record { challenge_id = id; user_id = user; posts_count = 0; total_points_earned = 0 }
              ∷ db.participants;
        },
      )
]

-- `INSERT IGNORE` of an award without posts
unfoldable pub insert_award : ℕ → ℕ → ℕ → List ChallengeDailyAward → List ChallengeDailyAward
insert_award id user date awards =
    if any_row (of_day id user date) awards
    then awards
    else record {
      challenge_id = id;
      user_id = user;
      award_date = date;
      posts_count = 0;
      points_earned = 0;
    }
      ∷ awards

-- The row that `First` finds, with a post more; `none` when it has its posts, or there is no row.
unfoldable pub add_post :
    (ChallengeDailyAward → Bool)
    → ℕ
    → ℕ
    → List ChallengeDailyAward
    → Option (List ChallengeDailyAward)
add_post p max points [] = none
add_post p max points (a ∷ xs) =
    let rest = add_post p max points xs in
    if p a
    then if leb max a.posts_count
      then none
      else some (
          record a { posts_count = a.posts_count + 1; points_earned = a.points_earned + points }
          ∷ xs)
    else elim rest [ none ↦ none | some more ↦ some (a ∷ more) ]

-- IncrementChallengeDailyAward, a transaction that locks the award's row
unfoldable pub increment_challenge_daily_award : ℕ → ℕ → ℕ → ℕ → ℕ → Challenges → Bool × Challenges
increment_challenge_daily_award id user date max points db =
    let awards = insert_award id user date db.awards in
    if leb max 0 then (false, db) else elim (add_post (of_day id user date) max points awards) [
      | none ↦ (false, record db { awards = awards })
      | some xs ↦ (true, record db { awards = xs })
    ]

abbrev pub with_post : ℕ → ChallengeParticipant → ChallengeParticipant
with_post points p = record p {
  posts_count = p.posts_count + 1;
  total_points_earned = p.total_points_earned + points;
}

-- IncrementChallengeParticipant
unfoldable pub increment_challenge_participant : ℕ → ℕ → ℕ → Challenges → Challenges
increment_challenge_participant id user points db = record db {
  participants = change_rows (has_joined id user) (with_post points) db.participants;
}

-- FindActiveChallengesByHashtag, in the order of the table. MySQL's comparison of two tags in lower
-- case is `same_tag`.
unfoldable pub find_active_challenges_by_hashtag :
    (Text → Text → Bool) → ℕ → Text → Dict CommunityChallenge → Dict CommunityChallenge
find_active_challenges_by_hashtag same_tag community tag [] = []
find_active_challenges_by_hashtag same_tag community tag ((i, c) ∷ d) =
    let rest = find_active_challenges_by_hashtag same_tag community tag d in
    if c.community_id == community && same_tag c.hashtag tag && is_active c.status
    then (i, c) ∷ rest
    else rest
