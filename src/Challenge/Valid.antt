-- ===== src/Challenge/Valid.antt =====
-- models of challenges: what their rows keep to.
use link_up_server.Base.{ℕ, ◌≡◌, ◌≤◌, refl, false, some, arith, Dict, lookup, any_row}
use link_up_server.Challenge.Tables.{
  CommunityChallenge, Challenges, in_challenge, has_joined, of_day, count_rows,
}
use link_up_server.Challenge.Service.{max_challenge_posts_per_day}
use link_up_server.Challenge.Machine.{opened}
use link_up_server.Challenge.Sums.{sum_rows, over, award_of}

-- The rows of participants against those of days: the limits hold, nobody joins twice, a day
-- has one row, and what a participant has is what the days have.
pub record ChallengesValid (db : Challenges) : Type 0 where
  pub limits :
      (i : ℕ) (c : CommunityChallenge) (m : ℕ)
      → lookup i db.challenges ≡ some c
      → c.max_participants ≡ some m
      → count_rows (in_challenge i) db.participants ≤ m
  pub once : (i u : ℕ) → count_rows (has_joined i u) db.participants ≤ 1
  pub days : any_row (over max_challenge_posts_per_day) db.awards ≡ false
  pub one_row : (i u t : ℕ) → count_rows (of_day i u t) db.awards ≤ 1
  pub daily :
      (i u t : ℕ)
      → sum_rows (of_day i u t) (λ a. a.posts_count) db.awards ≤ max_challenge_posts_per_day
  pub posts :
      (i u : ℕ)
      → sum_rows (has_joined i u) (λ p. p.posts_count) db.participants
        ≡ sum_rows (award_of i u) (λ a. a.posts_count) db.awards
  pub points :
      (i u : ℕ)
      → sum_rows (has_joined i u) (λ p. p.total_points_earned) db.participants
        ≡ sum_rows (award_of i u) (λ a. a.points_earned) db.awards

pub opened-ChallengesValid : (cs : Dict CommunityChallenge) → ChallengesValid (opened cs)
unfolding count_rows sum_rows any_row
opened-ChallengesValid cs = record {
  limits = λ i c m at e. omega arith;
  once = λ i u. omega arith;
  days = refl;
  one_row = λ i u t. omega arith;
  daily = λ i u t. omega arith;
  posts = λ i u. refl;
  points = λ i u. refl;
}
