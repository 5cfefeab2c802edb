-- ===== src/Challenge/Sums.antt =====
-- repository/contribution.repository.go: what its statements do to counts and sums of rows.
use link_up_server.Base.{
  ℕ, ◌+◌, ◌≡◌, ◌≤◌, inl, inr, refl, Bool, true, false, ◌&&◌, some, List, [], ◌∷◌, arith,
  if◌then◌else◌, leb, ltb, ◌==◌, any_row, change_rows, Bool-cases, Option-cases,
}
use link_up_server.Challenge.Tables.{
  ChallengeDailyAward, count_rows, of_day, insert_award, add_post,
}

module _ {ℓ} {A : Type ℓ} where
  -- `SELECT SUM(...)`
  unfoldable pub sum_rows : (A → Bool) → (A → ℕ) → List A → ℕ
  sum_rows p v [] = 0
  sum_rows p v (x ∷ xs) = if p x then v x + sum_rows p v xs else sum_rows p v xs

  pub any_row-count_rows : (p : A → Bool) (xs : List A) → any_row p xs ≡ true → 1 ≤ count_rows p xs
  unfolding any_row count_rows
  any_row-count_rows p [] h = absurd (ground arith)
  any_row-count_rows p (x ∷ xs) h = ground (arith, any_row-count_rows p xs)

  pub no_row-count_rows : (p : A → Bool) (xs : List A) → any_row p xs ≡ false → count_rows p xs ≡ 0
  unfolding any_row count_rows
  no_row-count_rows p [] h = refl
  no_row-count_rows p (x ∷ xs) h = ground (arith, no_row-count_rows p xs)

  pub no_row-sum_rows :
      (p : A → Bool) (v : A → ℕ) (xs : List A) → count_rows p xs ≡ 0 → sum_rows p v xs ≡ 0
  unfolding sum_rows count_rows
  no_row-sum_rows p v [] h = refl
  no_row-sum_rows p v (x ∷ xs) h = ground (arith, no_row-sum_rows p v xs)

  module _ (p q : A → Bool) (f : A → A) (stays : (x : A) → p (f x) ≡ p x) where
    pub count_rows-change_rows : (xs : List A) → count_rows p (change_rows q f xs) ≡ count_rows p xs
    unfolding count_rows change_rows
    count_rows-change_rows [] = refl
    count_rows-change_rows (x ∷ xs) = ground (arith, stays x, count_rows-change_rows xs)

    pub sum_rows-change_rows_apart :
        (v : A → ℕ) (xs : List A)
        → ((x : A) → q x ≡ true → p x ≡ false)
        → sum_rows p v (change_rows q f xs) ≡ sum_rows p v xs
    unfolding sum_rows change_rows
    sum_rows-change_rows_apart v [] apart = refl
    sum_rows-change_rows_apart v (x ∷ xs) apart =
        ground (arith, stays x, apart x, sum_rows-change_rows_apart v xs apart)

  module _ (p : A → Bool) (f : A → A) (stays : (x : A) → p (f x) ≡ p x) where
    sum_rows-change_none :
        (v : A → ℕ) (xs : List A)
        → count_rows p xs ≡ 0
        → sum_rows p v (change_rows p f xs) ≡ sum_rows p v xs
    unfolding sum_rows change_rows count_rows
    sum_rows-change_none v [] h = refl
    sum_rows-change_none v (x ∷ xs) h = ground (arith, sum_rows-change_none v xs)

    pub sum_rows-change_one :
        (v : A → ℕ) (k : ℕ) (xs : List A)
        → ((x : A) → v (f x) ≡ v x + k)
        → count_rows p xs ≡ 1
        → sum_rows p v (change_rows p f xs) ≡ sum_rows p v xs + k
    unfolding sum_rows change_rows count_rows
    sum_rows-change_one v k [] more h = absurd (ground arith)
    sum_rows-change_one v k (x ∷ xs) more h = elim (Bool-cases (p x)) [
      | inl on ↦
          let rest = sum_rows-change_none v xs (ground arith) in
          rw (on, change_rows) (ground (arith, stays x, more x, rest))
      | inr off ↦
          let rest = sum_rows-change_one v k xs more (ground arith) in
          rw (off, change_rows) (ground (arith, rest))
    ]

-- No award has more posts than the limit of a day.
abbrev pub over : ℕ → ChallengeDailyAward → Bool
over max a = ltb max a.posts_count

abbrev pub award_of : ℕ → ℕ → ChallengeDailyAward → Bool
award_of id user a = a.challenge_id == id && a.user_id == user

module _ (i u id user date : ℕ) where
  pub sum_rows-insert_award :
      (v : ChallengeDailyAward → ℕ) (xs : List ChallengeDailyAward)
      → v (record {
        challenge_id = id;
        user_id = user;
        award_date = date;
        posts_count = 0;
        points_earned = 0;
      })
        ≡ 0
      → sum_rows (award_of i u) v (insert_award id user date xs) ≡ sum_rows (award_of i u) v xs
  unfolding insert_award sum_rows
  sum_rows-insert_award v xs zero_new = ground arith

pub insert_award-over :
    (id user date max : ℕ) (xs : List ChallengeDailyAward)
    → any_row (over max) xs ≡ false
    → any_row (over max) (insert_award id user date xs) ≡ false
unfolding insert_award any_row
insert_award-over id user date max xs h = elim (Bool-cases (any_row (of_day id user date) xs)) [
  | inl there ↦ rw (there, insert_award) h
  | inr new ↦ rw (new, insert_award) (ground arith)
]

pub add_post-over :
    (q : ChallengeDailyAward → Bool) (max points : ℕ) (xs ys : List ChallengeDailyAward)
    → add_post q max points xs ≡ some ys
    → any_row (over max) xs ≡ false
    → any_row (over max) ys ≡ false
unfolding add_post any_row
add_post-over q max points [] ys = λ e h. cc
add_post-over q max points (a ∷ xs) ys = elim (Bool-cases (q a)) [
  | inl on ↦ elim (Bool-cases (leb max a.posts_count)) [
    | inl full ↦ rw (on, full, add_post) (λ e h. cc)
    | inr free ↦ rw (on, free, add_post) (λ e h. ground arith)
  ]
  | inr off ↦ elim (Option-cases (add_post q max points xs)) [
    | inl nothing ↦ rw (off, nothing, add_post) (λ e h. cc)
    | inr (more, at) ↦
        rw (off, at, add_post)
          (λ e h.
            let rest = add_post-over q max points xs more at (ground arith) in ground (arith, rest))
  ]
]

-- What a counted post adds to the sums of a user in a challenge.
pub sum_rows-add_post :
    (p q : ChallengeDailyAward → Bool) (v : ChallengeDailyAward → ℕ) (k max points : ℕ)
    (mine : Bool) (xs ys : List ChallengeDailyAward)
    → ((a : ChallengeDailyAward)
        → p (record a { posts_count = a.posts_count + 1; points_earned = a.points_earned + points })
          ≡ p a)
    → ((a : ChallengeDailyAward)
        → v (record a { posts_count = a.posts_count + 1; points_earned = a.points_earned + points })
          ≡ v a + k)
    → ((a : ChallengeDailyAward) → q a ≡ true → p a ≡ mine)
    → add_post q max points xs ≡ some ys
    → sum_rows p v ys ≡ (if mine then sum_rows p v xs + k else sum_rows p v xs)
unfolding add_post sum_rows
sum_rows-add_post p q v k max points mine [] ys stays more inside = λ e. cc
sum_rows-add_post p q v k max points mine (a ∷ xs) ys stays more inside = elim (Bool-cases (q a)) [
  | inl on ↦ elim (Bool-cases (leb max a.posts_count)) [
    | inl full ↦ rw (on, full, add_post) (λ e. cc)
    | inr free ↦ rw (on, free, add_post) (λ e. ground (arith, stays a, more a, inside a on))
  ]
  | inr off ↦ elim (Option-cases (add_post q max points xs)) [
    | inl nothing ↦ rw (off, nothing, add_post) (λ e. cc)
    | inr (zs, at) ↦
        rw (off, at, add_post)
          (λ e.
            let rest = sum_rows-add_post p q v k max points mine xs zs stays more inside at in
            ground (arith, rest))
  ]
]

pub count_rows-insert_award :
    (i u t id user date : ℕ) (xs : List ChallengeDailyAward)
    → count_rows (of_day i u t) xs ≤ 1
    → count_rows (of_day i u t) (insert_award id user date xs) ≤ 1
unfolding insert_award count_rows
count_rows-insert_award i u t id user date xs h =
    elim (Bool-cases (any_row (of_day id user date) xs)) [
      | inl there ↦ rw (there, insert_award) h
      | inr new ↦
          rw (new, insert_award)
            (elim (Bool-cases (id == i && user == u && date == t)) [
              | inr other ↦ rw other h
              | inl same ↦
                  let at_i : i ≡ id = ground arith in
                  let at_u : u ≡ user = ground arith in
                  let at_t : t ≡ date = ground arith in
                  let none_yet : count_rows (of_day i u t) xs ≡ 0 =
                    rw (at_i, at_u, at_t) (no_row-count_rows (of_day id user date) xs new) in
                  rw (same, none_yet) (omega arith)
            ])
    ]

pub count_rows-add_post :
    (p q : ChallengeDailyAward → Bool) (max points : ℕ) (xs ys : List ChallengeDailyAward)
    → ((a : ChallengeDailyAward)
        → p (record a { posts_count = a.posts_count + 1; points_earned = a.points_earned + points })
          ≡ p a)
    → add_post q max points xs ≡ some ys
    → count_rows p ys ≡ count_rows p xs
unfolding add_post count_rows
count_rows-add_post p q max points [] ys stays = λ e. cc
count_rows-add_post p q max points (a ∷ xs) ys stays = elim (Bool-cases (q a)) [
  | inl on ↦ elim (Bool-cases (leb max a.posts_count)) [
    | inl full ↦ rw (on, full, add_post) (λ e. cc)
    | inr free ↦ rw (on, free, add_post) (λ e. ground (arith, stays a))
  ]
  | inr off ↦ elim (Option-cases (add_post q max points xs)) [
    | inl nothing ↦ rw (off, nothing, add_post) (λ e. cc)
    | inr (zs, at) ↦
        rw (off, at, add_post)
          (λ e.
            let rest = count_rows-add_post p q max points xs zs stays at in ground (arith, rest))
  ]
]

-- With one row at most, and no row over the limit, the sum is not over it.
pub sum_rows-limited :
    (p : ChallengeDailyAward → Bool) (max : ℕ) (xs : List ChallengeDailyAward)
    → count_rows p xs ≤ 1
    → any_row (over max) xs ≡ false
    → sum_rows p (λ a. a.posts_count) xs ≤ max
unfolding sum_rows count_rows any_row
sum_rows-limited p max [] one low = omega arith
sum_rows-limited p max (a ∷ xs) one low = elim (Bool-cases (p a)) [
  | inl on ↦
      let rest = no_row-sum_rows p (λ a. a.posts_count) xs (ground arith) in
      rw on (ground (arith, rest))
  | inr off ↦ let rest = sum_rows-limited p max xs (ground arith) (ground arith) in rw off rest
]
