-- ===== src/Challenge/Joining.antt =====
-- services/contribution.service.go: JoinChallenge keeps the tables valid.
use link_up_server.Base.{
  ℕ, ◌≡◌, inl, inr, subst, Bool, false, not, some, ◌∷◌, arith, leb, ltb, ◌==◌, lookup, any_row,
  Bool-cases, Option-cases,
}
use link_up_server.Challenge.Tables.{
  CommunityChallenge, Challenges, in_challenge, has_joined, is_active, limit_reached, count_rows,
  join_challenge_atomic,
}
use link_up_server.Challenge.Service.{join_challenge}
use link_up_server.Challenge.Sums.{sum_rows, no_row-count_rows}
use link_up_server.Challenge.Valid.{ChallengesValid}

-- A new participant in a challenge with a free place.
joined-ChallengesValid :
    (db : Challenges) (id user : ℕ) (c : CommunityChallenge)
    → ChallengesValid db
    → lookup id db.challenges ≡ some c
    → any_row (has_joined id user) db.participants ≡ false
    → limit_reached c.max_participants (count_rows (in_challenge id) db.participants) ≡ false
    → ChallengesValid (record db {
      participants =
          record { challenge_id = id; user_id = user; posts_count = 0; total_points_earned = 0 }
          ∷ db.participants;
    })
unfolding count_rows sum_rows
joined-ChallengesValid db id user c v found new free = record {
  limits = λ i k m at e. elim (Bool-cases (id == i)) [
    | inl here ↦
        let same : k ≡ c = ground (arith, found, at) in
        let max : c.max_participants ≡ some m = subst (λ x. x.max_participants ≡ some m) same e in
        let room : leb m (count_rows (in_challenge id) db.participants) ≡ false = rw max at free in
        ground (arith, room)
    | inr other ↦ let old = v.limits i k m at e in ground (arith, old)
  ];
  once = λ i u.
      let old = v.once i u in
      let none_yet = no_row-count_rows (has_joined id user) db.participants new in
      ground (arith, old, none_yet);
  days = v.days;
  one_row = v.one_row;
  daily = v.daily;
  posts = λ i u. let old = v.posts i u in ground (arith, old);
  points = λ i u. let old = v.points i u in ground (arith, old);
}

join_challenge_atomic-ChallengesValid :
    (id user : ℕ) (c : CommunityChallenge) (db : Challenges)
    → lookup id db.challenges ≡ some c
    → ChallengesValid db
    → ChallengesValid (join_challenge_atomic id user c.max_participants db).1
unfolding join_challenge_atomic
join_challenge_atomic-ChallengesValid id user c db found v =
    elim (Bool-cases (any_row (has_joined id user) db.participants)) [
      | inl twice ↦ rw (found, twice, join_challenge_atomic) v
      | inr new ↦
          elim (Bool-cases
            (limit_reached c.max_participants (count_rows (in_challenge id) db.participants))) [
              | inl full ↦ rw (found, new, full, join_challenge_atomic) v
              | inr free ↦
                  rw (found, new, free, join_challenge_atomic)
                    (joined-ChallengesValid db id user c v found new free)
            ]
    ]

pub join_challenge-ChallengesValid :
    (member : Bool) (now user id : ℕ) (db : Challenges)
    → ChallengesValid db
    → ChallengesValid (join_challenge member now user id db).1
unfolding join_challenge
join_challenge-ChallengesValid member now user id db v =
    elim (Option-cases (lookup id db.challenges)) [
      | inl missing ↦ rw (missing, join_challenge) v
      | inr (c, found) ↦ elim (Bool-cases (not (is_active c.status))) [
        | inl over_now ↦ rw (found, over_now, join_challenge) v
        | inr on ↦ elim (Bool-cases (not member)) [
          | inl stranger ↦ rw (found, on, stranger, join_challenge) v
          | inr inside ↦ elim (Bool-cases (ltb now c.start_date)) [
            | inl early ↦ rw (found, on, inside, early, join_challenge) v
            | inr begun ↦ elim (Bool-cases (ltb c.end_date now)) [
              | inl late ↦ rw (found, on, inside, begun, late, join_challenge) v
              | inr runs ↦
                  rw (found, on, inside, begun, runs, join_challenge)
                    (join_challenge_atomic-ChallengesValid id user c db found v)
            ]
          ]
        ]
      ]
    ]
