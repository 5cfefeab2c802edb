-- ===== src/Friendship/Invariant.antt =====
-- services/friend.service.go: well-formed rows of friend requests, and the writes to them.
use link_up_server.Base.{
  ℕ, ◌≡◌, ◌≢◌, false, some, arith, Dict, lookup, insert, erase, lookup-insert, lookup-erase,
  insert-Distinct, erase-Distinct, Distinct,
}
use link_up_server.Friendship.Table.{Friend, pending, accepted, rejected, sent_by_to}

-- The rows stand at their ids, are pending or accepted, and link two users; a user has at most one row towards another.
pub record RowsValid (d : Dict Friend) : Type 0 where
  pub keys : Distinct d
  pub ids : (i : ℕ) (f : Friend) → lookup i d ≡ some f → f.id ≡ i
  pub parties : (i : ℕ) (f : Friend) → lookup i d ≡ some f → f.sender_id ≢ f.receiver_id
  pub statuses : (i : ℕ) (f : Friend) → lookup i d ≡ some f → f.status ≢ rejected
  pub once :
      (i j : ℕ) (f g : Friend)
      → lookup i d ≡ some f
      → lookup j d ≡ some g
      → f.sender_id ≡ g.sender_id
      → f.receiver_id ≡ g.receiver_id
      → i ≡ j

pub fewer-RowsValid :
    (d d' : Dict Friend)
    → RowsValid d
    → Distinct d'
    → ((i : ℕ) (f : Friend) → lookup i d' ≡ some f → lookup i d ≡ some f)
    → RowsValid d'
fewer-RowsValid d d' v u old = record {
  keys = u;
  ids = λ i f at. v.ids i f (old i f at);
  parties = λ i f at. v.parties i f (old i f at);
  statuses = λ i f at. v.statuses i f (old i f at);
  once = λ i j f g at at'. v.once i j f g (old i f at) (old j g at');
}

pub erase-RowsValid : (id : ℕ) (d : Dict Friend) → RowsValid d → RowsValid (erase id d)
erase-RowsValid id d v =
    fewer-RowsValid d (erase id d) v (erase-Distinct id d v.keys)
      (λ i f at. ground (arith, lookup-erase i id d))

pub new-RowsValid :
    (new : Friend) (d : Dict Friend)
    → RowsValid d
    → new.status ≡ pending
    → new.sender_id ≢ new.receiver_id
    → ((i : ℕ) (f : Friend)
        → lookup i d ≡ some f
        → sent_by_to new.sender_id new.receiver_id f ≡ false)
    → RowsValid (insert new.id new d)
new-RowsValid new d v p ne none_yet = record {
  keys = insert-Distinct new.id new d v.keys;
  ids = λ i f at. ground (arith, lookup-insert i new.id new d, v.ids i f);
  parties = λ i f at. ground (arith, lookup-insert i new.id new d, v.parties i f);
  statuses = λ i f at. ground (arith, lookup-insert i new.id new d, v.statuses i f);
  once = λ i j f g at at' s r. ground (
    arith,
    lookup-insert i new.id new d,
    lookup-insert j new.id new d,
    v.once i j f g,
    none_yet i f,
    none_yet j g,
  );
}

pub accept-RowsValid :
    (id : ℕ) (f : Friend) (d : Dict Friend)
    → RowsValid d
    → lookup id d ≡ some f
    → RowsValid (insert id (record f { status = accepted }) d)
accept-RowsValid id f d v found =
    let f' : Friend = record f { status = accepted } in
    record {
      keys = insert-Distinct id f' d v.keys;
      ids = λ i g at. ground (arith, lookup-insert i id f' d, v.ids i g, v.ids id f found);
      parties =
          λ i g at. ground (arith, lookup-insert i id f' d, v.parties i g, v.parties id f found);
      statuses = λ i g at. ground (arith, lookup-insert i id f' d, v.statuses i g);
      once = λ i j g h at at' s r. ground (
        arith,
        lookup-insert i id f' d,
        lookup-insert j id f' d,
        v.once i j g h,
        v.once i id g f,
        v.once id j f h,
        found,
      );
    }
