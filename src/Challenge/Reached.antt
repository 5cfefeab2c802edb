-- ===== src/Challenge/Reached.antt =====
-- services/contribution.service.go: the tables of challenges that its calls reach.
use link_up_server.Base.{true, false, [], Dict}
use link_up_server.Challenge.Tables.{CommunityChallenge, Challenges}
use link_up_server.Challenge.Service.{matched_challenges, process_challenge_post}
use link_up_server.Challenge.Machine.{join, post, step, opened, Reach, start, next}
use link_up_server.Challenge.Valid.{ChallengesValid, opened-ChallengesValid}
use link_up_server.Challenge.Joining.{join_challenge-ChallengesValid}
use link_up_server.Challenge.Posting.{award_posts-ChallengesValid}

-- In all tables that calls of JoinChallenge and ProcessChallengePost, one after the other, reach
-- from challenges that nobody has joined: no challenge has more participants than its limit,
-- nobody is in one twice, a user has one award row at most for a challenge and a day, the posts of
-- a user that are counted in a challenge on a day are three at most, and the posts and the points
-- of a participant are the sums of those of all days.
pub Reach-ChallengesValid :
    (cs : Dict CommunityChallenge) (db : Challenges) → Reach (opened cs) db → ChallengesValid db
unfolding step process_challenge_post
Reach-ChallengesValid cs _ start = opened-ChallengesValid cs
Reach-ChallengesValid cs _ (next (join member now user id) db r) =
    join_challenge-ChallengesValid member now user id db (Reach-ChallengesValid cs db r)
Reach-ChallengesValid cs _ (next (post same_tag true now user community hashtags) db r) =
    award_posts-ChallengesValid now user
      (matched_challenges same_tag community hashtags db.challenges []) db
      (Reach-ChallengesValid cs db r)
Reach-ChallengesValid cs _ (next (post same_tag false now user community hashtags) db r) =
    Reach-ChallengesValid cs db r
