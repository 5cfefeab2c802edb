-- ===== src/Challenge/Tests.antt =====
-- A challenge with one place, and a post of its participant.
use link_up_server.Base.{◌≡◌, refl, true, some, [], ◌∷◌, Dict, lookup, insert, change_rows, any_row}
use link_up_server.Text.{codes, text_eq}
use link_up_server.Challenge.Tables.{
  CommunityChallenge, Challenges, active, limit_hit, count_rows, insert_award, add_post,
  join_challenge_atomic, increment_challenge_daily_award, increment_challenge_participant,
  find_active_challenges_by_hashtag,
}
use link_up_server.Challenge.Service.{
  join_challenge, award_post, award_posts, add_matches, matched_challenges, process_challenge_post,
}
use link_up_server.Challenge.Machine.{join, post, step, opened, Reach, start, next}
use link_up_server.Challenge.Valid.{ChallengesValid}
use link_up_server.Challenge.Reached.{Reach-ChallengesValid}

abbrev run_daily : CommunityChallenge
run_daily = record {
  community_id = 4;
  hashtag = codes "#run";
  points_per_post = 15;
  start_date = 100;
  end_date = 900;
  max_participants = some 1;
  status = active;
}

abbrev table : Dict CommunityChallenge
table = (7, run_daily) ∷ []

-- User 1 joins and posts four times; user 2 finds no place.
abbrev posted : Challenges
posted =
    let tags = codes "#run" ∷ [] in
    step (post text_eq true 204 1 4 tags) (
      step (post text_eq true 203 1 4 tags) (
        step (post text_eq true 202 1 4 tags)
          (step (post text_eq true 201 1 4 tags) (step (join true 200 1 7) (opened table)))))

reached : Reach (opened table) posted
reached =
    let tags = codes "#run" ∷ [] in
    next (post text_eq true 204 1 4 tags) _ (
      next (post text_eq true 203 1 4 tags) _ (
        next (post text_eq true 202 1 4 tags) _
          (next (post text_eq true 201 1 4 tags) _ (next (join true 200 1 7) _ start))))

Reach-ChallengesValid_example : ChallengesValid posted
Reach-ChallengesValid_example = Reach-ChallengesValid table posted reached

no_place : (join_challenge true 205 2 7 posted).0 ≡ limit_hit
unfolding step join_challenge join_challenge_atomic any_row count_rows process_challenge_post
    award_posts award_post increment_challenge_daily_award increment_challenge_participant
    insert_award add_post matched_challenges add_matches find_active_challenges_by_hashtag text_eq
    lookup insert change_rows
no_place = refl
