-- ===== src/GroupCall/Succession.antt =====
-- Who becomes the creator when CleanupStaleCalls drops the one there was.
use link_up_server.Base.{
  ℕ, ◌≤◌, ◌≡◌, ◌≢◌, inl, inr, refl, sym, ap, ◌∙◌, true, false, Option, none, some, List, [], ◌∷◌,
  arith, has, has_key, has-remove, lookup-erase, has-sort_ids, sort_ids, IsSorted,
  sort_ids-IsSorted, ◌==◌, Dict, if◌then◌else◌, Bool-cases, Option-cases,
}
use link_up_server.GroupCall.Session.{GroupCallSession, first_connected, first_joined}
use link_up_server.GroupCall.Cleanup.{forget, successor, with_caller, drop_user}
use link_up_server.GroupCall.Invariant.Cleanup.{first_joined-has}

first_connected-least :
    (gone : Dict ℕ) (us : List ℕ) (x : ℕ)
    → IsSorted us
    → has x us ≡ true
    → has_key x gone ≡ false
    → (u : ℕ) × (first_connected gone us ≡ some u) × (u ≤ x)
unfolding first_connected has
first_connected-least gone [] x k h c = cc
first_connected-least gone (w ∷ us) x k h c = elim (Bool-cases (has_key w gone)) [
  | inr connected ↦ rw connected (w, refl, ground (arith, k.0 x))
  | inl absent ↦ rw absent (
      first_connected-least gone us x k.1 (ground (arith, ap (λ y. has_key y gone) {x = x} {y = w}))
        c)
]

-- The joined and connected user with the least id is chosen, if there is one.
first_joined-least :
    (s : GroupCallSession) (x : ℕ)
    → has x s.joined ≡ true
    → has_key x s.disconnected_at ≡ false
    → (u : ℕ) × (first_joined s ≡ some u) × (u ≤ x)
unfolding first_joined
first_joined-least s x h c =
    first_connected-least s.disconnected_at (sort_ids s.joined) x (sort_ids-IsSorted s.joined)
      (has-sort_ids x s.joined ∙ h) c

successor-creator :
    (u : ℕ) (s : GroupCallSession) → s.caller_id ≡ u → successor u s ≡ first_joined s
unfolding successor
successor-creator u s e = ground arith

with_caller-caller :
    (c : ℕ) (s : GroupCallSession) (o : Option ℕ) → o ≡ some c → (with_caller o s).caller_id ≡ c
with_caller-caller c s none e = cc
with_caller-caller c s (some d) e = cc

with_caller_rest :
    (o : Option ℕ) (s : GroupCallSession)
    → ((with_caller o s).joined ≡ s.joined)
      × ((with_caller o s).disconnected_at ≡ s.disconnected_at)
with_caller_rest none s = (refl, refl)
with_caller_rest (some d) s = (refl, refl)

forget-caller : (u : ℕ) (s : GroupCallSession) → (forget u s).caller_id ≡ s.caller_id
unfolding forget
forget-caller u s = refl

forget-joined :
    (u x : ℕ) (s : GroupCallSession)
    → has x (forget u s).joined ≡ (if x == u then false else has x s.joined)
unfolding forget
forget-joined u x s = has-remove u x s.joined

forget-gone :
    (u x : ℕ) (s : GroupCallSession)
    → has_key x (forget u s).disconnected_at
      ≡ (if x == u then false else has_key x s.disconnected_at)
unfolding forget
forget-gone u x s = ground (arith, lookup-erase x u s.disconnected_at)

-- When the creator is dropped while another joined user is connected, the new creator is joined and
-- connected, and has the least id of those who are.
pub drop_user-successor :
    (u x : ℕ) (s : GroupCallSession)
    → s.caller_id ≡ u
    → x ≢ u
    → has x s.joined ≡ true
    → has_key x s.disconnected_at ≡ false
    → let t = drop_user u s in
      (has t.caller_id t.joined ≡ true)
      × (has_key t.caller_id t.disconnected_at ≡ false)
      × (t.caller_id ≤ x)
unfolding drop_user
drop_user-successor u x s creator other here connected =
    rw (sym joined, sym gone, caller) (chosen.0, chosen.1, least)
  where
    f : GroupCallSession
    f = forget u s

    found : (c : ℕ) × (first_joined f ≡ some c) × (c ≤ x)
    found =
        first_joined-least f x (ground (arith, forget-joined u x s))
          (ground (arith, forget-gone u x s))

    least : found.0 ≤ x
    least = found.2

    chosen : (has found.0 f.joined ≡ true) × (has_key found.0 f.disconnected_at ≡ false)
    chosen = first_joined-has f found.1

    picked : successor u f ≡ some found.0
    picked = successor-creator u f (forget-caller u s ∙ creator) ∙ found.1

    caller : (with_caller (successor u f) f).caller_id ≡ found.0
    caller = with_caller-caller found.0 f (successor u f) picked

    joined : f.joined ≡ (with_caller (successor u f) f).joined
    joined = sym (with_caller_rest (successor u f) f).0

    gone : f.disconnected_at ≡ (with_caller (successor u f) f).disconnected_at
    gone = sym (with_caller_rest (successor u f) f).1

-- When the creator is dropped while all other joined users have lost their sockets too, the call
-- keeps a creator who is not in it.
pub drop_user-orphan :
    (u : ℕ) (s : GroupCallSession)
    → s.caller_id ≡ u
    → ((x : ℕ) → has x s.joined ≡ true → x ≢ u → has_key x s.disconnected_at ≡ true)
    → ((drop_user u s).caller_id ≡ u) × (has u (drop_user u s).joined ≡ false)
unfolding drop_user
drop_user-orphan u s creator alone = elim (Option-cases (first_joined f)) [
  | inr (c, e) ↦
      let (joined, connected) = first_joined-has f e in
      absurd (ground (arith, forget-joined u c s, forget-gone u c s, alone c))
  | inl nobody ↦
      let none_picked = successor-creator u f (forget-caller u s ∙ creator) ∙ nobody in
      rw none_picked (forget-caller u s ∙ creator, ground (arith, forget-joined u u s))
]
  where
    f : GroupCallSession
    f = forget u s
