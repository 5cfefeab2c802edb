-- ===== src/Challenge/Posting.antt =====
-- services/contribution.service.go: ProcessChallengePost keeps the tables valid.
use link_up_server.Base.{
  ℕ, ◌+◌, ◌≡◌, ◌≤◌, inl, inr, refl, sym, ap, ◌∙◌, true, false, ◌&&◌, ◌||◌, some, List, [], ◌∷◌,
  arith, ltb, ◌==◌, Dict, any_row, change_rows, Bool-cases, Option-cases,
}
use link_up_server.Challenge.Tables.{
  CommunityChallenge, ChallengeParticipant, ChallengeDailyAward, Challenges, in_challenge,
  has_joined, of_day, with_post, count_rows, insert_award, add_post,
  increment_challenge_daily_award, increment_challenge_participant,
}
use link_up_server.Challenge.Service.{
  max_challenge_posts_per_day, challenge_award_date, award_post, award_posts,
}
use link_up_server.Challenge.Sums.{
  sum_rows, award_of, any_row-count_rows, count_rows-change_rows, sum_rows-change_rows_apart,
  sum_rows-change_one, sum_rows-insert_award, insert_award-over, add_post-over, sum_rows-add_post,
  over, count_rows-insert_award, count_rows-add_post, sum_rows-limited,
}
use link_up_server.Challenge.Valid.{ChallengesValid}

module _ (db : Challenges) (id user date : ℕ) (v : ChallengesValid db) where
  inserted_days :
      any_row (over max_challenge_posts_per_day) (insert_award id user date db.awards) ≡ false
  inserted_days = insert_award-over id user date max_challenge_posts_per_day db.awards v.days

  inserted_one : (i u t : ℕ) → count_rows (of_day i u t) (insert_award id user date db.awards) ≤ 1
  inserted_one i u t = count_rows-insert_award i u t id user date db.awards (v.one_row i u t)

  inserted-ChallengesValid :
      ChallengesValid (record db { awards = insert_award id user date db.awards })
  inserted-ChallengesValid = record {
    limits = v.limits;
    once = v.once;
    days = inserted_days;
    one_row = inserted_one;
    daily = λ i u t. sum_rows-limited (of_day i u t) _ _ (inserted_one i u t) inserted_days;
    posts = λ i u.
        let old = v.posts i u in
        rw (sum_rows-insert_award i u id user date (λ a. a.posts_count) db.awards refl) old;
    points = λ i u.
        let old = v.points i u in
        rw (sum_rows-insert_award i u id user date (λ a. a.points_earned) db.awards refl) old;
  }

  -- A sum of the participants that follows the same sum of the days follows it when a post is counted.
  counted_sum :
      (i u k points max : ℕ) (f : ChallengeParticipant → ℕ) (g : ChallengeDailyAward → ℕ)
      (xs ys : List ChallengeDailyAward)
      → any_row (has_joined id user) db.participants ≡ true
      → ((p : ChallengeParticipant) → f (with_post points p) ≡ f p + k)
      → ((a : ChallengeDailyAward)
          → g (record a {
            posts_count = a.posts_count + 1;
            points_earned = a.points_earned + points;
          })
            ≡ g a + k)
      → add_post (of_day id user date) max points xs ≡ some ys
      → sum_rows (has_joined i u) f db.participants ≡ sum_rows (award_of i u) g xs
      → sum_rows
          (has_joined i u)
          f
          (change_rows (has_joined id user) (with_post points) db.participants)
        ≡ sum_rows (award_of i u) g ys
  counted_sum i u k points max f g xs ys in_it more_f more_g e old =
      elim (Bool-cases (id == i && user == u)) [
        | inl same ↦
            let days =
              sum_rows-add_post (award_of id user) (of_day id user date) g k max points true xs ys
                (λ a. refl) more_g (λ a on. ground arith) e in
            let one : count_rows (has_joined id user) db.participants ≡ 1 = ground (
              arith,
              v.once id user,
              any_row-count_rows (has_joined id user) db.participants in_it,
            ) in
            let rows =
              sum_rows-change_one (has_joined id user) (with_post points) (λ p. refl) f k
                db.participants more_f one in
            let at_i : i ≡ id = ground arith in
            let at_u : u ≡ user = ground arith in
            rw (at_i, at_u, rows, days) (ap (λ n. n + k) (rw (at_i, at_u) at old))
        | inr other ↦
            let days =
              sum_rows-add_post (award_of i u) (of_day id user date) g k max points false xs ys
                (λ a. refl) more_g (λ a on. ground arith) e in
            let rows =
              sum_rows-change_rows_apart (has_joined i u) (has_joined id user) (with_post points)
                (λ p. refl) f db.participants (λ p on. ground arith) in
            rows ∙ old ∙ sym days
      ]

  -- A post of a participant that counts.
  counted-ChallengesValid :
      (points : ℕ) (ys : List ChallengeDailyAward)
      → any_row (has_joined id user) db.participants ≡ true
      → add_post
          (of_day id user date)
          max_challenge_posts_per_day
          points
          (insert_award id user date db.awards)
        ≡ some ys
      → ChallengesValid (record db {
        awards = ys;
        participants = change_rows (has_joined id user) (with_post points) db.participants;
      })
  counted-ChallengesValid points ys in_it e =
      let w = inserted-ChallengesValid in
      let still =
        add_post-over (of_day id user date) max_challenge_posts_per_day points _ ys e w.days in
      let one : (i u t : ℕ) → count_rows (of_day i u t) ys ≤ 1 = λ i u t.
        rw
          (count_rows-add_post (of_day i u t) (of_day id user date) max_challenge_posts_per_day
            points _ ys (λ a. refl) e)
          (w.one_row i u t) in
      record {
        limits = λ i c m at full.
            rw
              (count_rows-change_rows (in_challenge i) (has_joined id user) (with_post points)
                (λ p. refl) db.participants)
              (v.limits i c m at full);
        once = λ i u.
            rw
              (count_rows-change_rows (has_joined i u) (has_joined id user) (with_post points)
                (λ p. refl) db.participants)
              (v.once i u);
        days = still;
        one_row = one;
        daily = λ i u t. sum_rows-limited (of_day i u t) _ _ (one i u t) still;
        posts = λ i u.
            counted_sum i u 1 points max_challenge_posts_per_day (λ p. p.posts_count)
              (λ a. a.posts_count) _ ys in_it (λ p. refl) (λ a. refl) e (w.posts i u);
        points = λ i u.
            counted_sum i u points points max_challenge_posts_per_day (λ p. p.total_points_earned)
              (λ a. a.points_earned) _ ys in_it (λ p. refl) (λ a. refl) e (w.points i u);
      }

award_post-ChallengesValid :
    (now user id : ℕ) (c : CommunityChallenge) (db : Challenges)
    → ChallengesValid db
    → ChallengesValid (award_post now user id c db).1
unfolding award_post increment_challenge_daily_award increment_challenge_participant
award_post-ChallengesValid now user id c db v =
    let date = challenge_award_date now in
    elim (Bool-cases (ltb now c.start_date || ltb c.end_date now)) [
      | inl closed ↦ rw (closed, award_post) v
      | inr open_now ↦ elim (Bool-cases (any_row (has_joined id user) db.participants)) [
        | inr outside ↦ rw (open_now, outside, award_post) v
        | inl in_it ↦
            elim (Option-cases (
              add_post (of_day id user date) max_challenge_posts_per_day c.points_per_post
                (insert_award id user date db.awards))) [
                  | inl full ↦
                      rw (open_now, in_it, full, award_post)
                        (inserted-ChallengesValid db id user date v)
                  | inr (ys, e) ↦
                      rw (open_now, in_it, e, award_post)
                        (counted-ChallengesValid db id user date v c.points_per_post ys in_it e)
                ]
      ]
    ]

pub award_posts-ChallengesValid :
    (now user : ℕ) (matched : Dict CommunityChallenge) (db : Challenges)
    → ChallengesValid db
    → ChallengesValid (award_posts now user matched db).1
unfolding award_posts
award_posts-ChallengesValid now user [] db v = v
award_posts-ChallengesValid now user ((i, c) ∷ matched) db v =
    award_posts-ChallengesValid now user matched _ (award_post-ChallengesValid now user i c db v)
