-- ===== src/Friends/Consent.antt =====
-- Who becomes a friend of whom (Chess-Backend/src/models/Friendship.js).
use Prim.Native.String.{String}
use end_to_end_kubernetes_ch.Base.{
  ℕ, ◌≤◌, ◌≡◌, ◌∙◌, ◌⊎◌, ◌↔◌, refl, sym, ap, inl, inr, Bool, true, false, none, some, List, [], ◌∷◌,
  ◌++◌, map, arith, ◌==◌, ◌&&◌, find, filter, any, Has, Bool-cases, Option-cases,
}
use end_to_end_kubernetes_ch.Store.{count_where, update_where}
use end_to_end_kubernetes_ch.Friends.{
  pending, FriendRow, Circle, Call, sends, responds, removes, between, is_accepted, is_named,
  has_user_id, is_directed, insert_request, look_up, send_request, is_addressed, has_row_id,
  accept_row, respond, remove, is_friend_row, other_of, list_friends, run,
}

-- An accepted row joins the two users.
abbrev pub is_bond : ℕ → ℕ → FriendRow → Bool
is_bond a b r = between a b r && is_accepted r.status

abbrev pub are_friends : ℕ → ℕ → Circle → Bool
are_friends a b db = any (is_bond a b) db.rows

-- The call accepts a request between the two users on behalf of the one who was asked.
abbrev pub consents : ℕ → ℕ → Call → Circle → Bool
consents a b (sends requester name) db = false
consents a b (removes id user) db = false
consents a b (responds id user accept) db =
    accept && any (λ r. (r.id == id && r.addressee_id == user) && between a b r) db.rows

any-filter :
    (p q : FriendRow → Bool) (xs : List FriendRow) → any p (filter q xs) ≡ true → any p xs ≡ true
any-filter p q [] h = h
any-filter p q (x ∷ xs) h = elim (Bool-cases (q x)) [
  | inl e ↦ ground (arith, rw e at h, any-filter p q xs)
  | inr e ↦ ground (arith, any-filter p q xs (rw e at h))
]

any-last :
    (p : FriendRow → Bool) (xs : List FriendRow) (x : FriendRow)
    → p x ≡ false
    → any p (xs ++ x ∷ []) ≡ true
    → any p xs ≡ true
any-last p [] x e h = ground arith
any-last p (y ∷ xs) x e h = ground (arith, any-last p xs x e)

any-accept :
    (a b id : ℕ) (xs : List FriendRow)
    → any (is_bond a b) (update_where (has_row_id id) accept_row xs) ≡ true
    → (any (is_bond a b) xs ≡ true) ⊎ (any (λ r. has_row_id id r && between a b r) xs ≡ true)
any-accept a b id [] h = inl h
any-accept a b id (x ∷ xs) h = elim (Bool-cases (has_row_id id x)) [
  | inl e ↦ ground (arith, e, rw e at h, any-accept a b id xs)
  | inr e ↦ ground (arith, e, rw e at h, any-accept a b id xs)
]

not_counted :
    (p q : FriendRow → Bool) (xs : List FriendRow)
    → count_where p xs ≡ 0
    → any (λ r. p r && q r) xs ≡ false
not_counted p q [] h = refl
not_counted p q (x ∷ xs) h = elim (Bool-cases (p x)) [
  | inl e ↦ absurd (omega (arith, rw e at h))
  | inr e ↦ rw e (not_counted p q xs (omega (arith, rw e at h)))
]

not_addressed :
    (id user : ℕ) (xs : List FriendRow) {r : FriendRow}
    → count_where (has_row_id id) xs ≡ 0
    → find (is_addressed id user) xs ≡ some r
    → ⊥
not_addressed id user [] z f = cc
not_addressed id user (x ∷ xs) z f = elim (Bool-cases (has_row_id id x)) [
  | inl e ↦ omega (arith, rw e at z)
  | inr e ↦ not_addressed id user xs (omega (arith, rw e at z)) (rw e at f)
]

-- The row that `respond` found is the only one with its id.
addressed_row :
    (a b id user : ℕ) (xs : List FriendRow) {r : FriendRow}
    → count_where (has_row_id id) xs ≤ 1
    → find (is_addressed id user) xs ≡ some r
    → any (λ s. has_row_id id s && between a b s) xs ≡ true
    → any (λ s. is_addressed id user s && between a b s) xs ≡ true
addressed_row a b id user [] once f h = h
addressed_row a b id user (x ∷ xs) once f h = elim (Bool-cases (has_row_id id x)) [
  | inr e ↦
      rw e (addressed_row a b id user xs (omega (arith, rw e at once)) (rw e at f) (rw e at h))
  | inl e ↦
      let rest : count_where (has_row_id id) xs ≡ 0 = omega (arith, rw e at once) in
      elim (Bool-cases (x.addressee_id == user)) [
        | inl k ↦ ground (arith, e, k, h, not_counted (has_row_id id) (between a b) xs rest)
        | inr k ↦ absurd (not_addressed id user xs rest (rw (e, k) at f))
      ]
]

send_request-is_bond :
    (a b requester : ℕ) (name : String) (db : Circle)
    → are_friends a b (run (sends requester name) db) ≡ true
    → are_friends a b db ≡ true
unfolding send_request look_up insert_request
send_request-is_bond a b requester name db h = elim (Option-cases (find (is_named name) db.users)) [
  | inl e ↦ rw (run, send_request, look_up, e) at h
  | inr (u, e) ↦ elim (Bool-cases (u.0 == requester)) [
    | inl k ↦ rw (run, send_request, look_up, e, k) at h
    | inr k ↦ elim (Option-cases (find (between requester u.0) db.rows)) [
      | inr (r, l) ↦ rw (run, send_request, look_up, e, k, l) at h
      | inl l ↦ elim (Bool-cases (any (has_user_id requester) db.users)) [
        | inr m ↦ rw (run, send_request, look_up, insert_request, e, k, l, m) at h
        | inl m ↦ elim (Bool-cases (any (is_directed requester u.0) db.rows)) [
          | inl d ↦ rw (run, send_request, look_up, insert_request, e, k, l, m, d) at h
          | inr d ↦
              any-last (is_bond a b) db.rows _ (ground arith)
                (rw (run, send_request, look_up, insert_request, e, k, l, m, d) at h)
        ]
      ]
    ]
  ]
]

-- Two users are friends after a call only if they were before it, or if the call accepts a request
-- between them on behalf of the one of them who was asked; ids are unique in the table.
pub run-consents :
    (a b : ℕ) (c : Call) (db : Circle)
    → ((id : ℕ) → count_where (has_row_id id) db.rows ≤ 1)
    → are_friends a b (run c db) ≡ true
    → (are_friends a b db ≡ true) ⊎ (consents a b c db ≡ true)
unfolding respond remove
run-consents a b (sends requester name) db unique h =
    inl (send_request-is_bond a b requester name db h)
run-consents a b (removes id user) db unique h = inl (any-filter (is_bond a b) _ db.rows h)
run-consents a b (responds id user accept) db unique h =
    elim (Option-cases (find (is_addressed id user) db.rows)) [
      | inl e ↦ inl (rw (run, respond, e) at h)
      | inr (r, e) ↦ elim (Bool-cases accept) [
        | inr k ↦ inl (any-filter (is_bond a b) _ db.rows (rw (run, respond, e, k) at h))
        | inl k ↦ elim (any-accept a b id db.rows (rw (run, respond, e, k) at h)) [
          | inl l ↦ inl l
          | inr l ↦ inr (rw k (addressed_row a b id user db.rows (unique id) e l))
        ]
      ]
    ]

Has-bond :
    (a b : ℕ) (xs : List FriendRow)
    → Has b (map (other_of a) (filter (is_friend_row a) xs))
    → any (is_bond a b) xs ≡ true
Has-bond a b [] h = elim h [ ]
Has-bond a b (x ∷ xs) h = elim (Bool-cases (is_friend_row a x)) [
  | inl e ↦ elim (rw e at h) [
    | inl q ↦ ground (arith, e, q)
    | inr m ↦ ground (arith, Has-bond a b xs m)
  ]
  | inr e ↦ ground (arith, Has-bond a b xs (rw e at h))
]

bond-Has :
    (a b : ℕ) (xs : List FriendRow)
    → any (is_bond a b) xs ≡ true
    → Has b (map (other_of a) (filter (is_friend_row a) xs))
bond-Has a b [] h = cc
bond-Has a b (x ∷ xs) h = elim (Bool-cases (is_bond a b x)) [
  | inl e ↦ let f : is_friend_row a x ≡ true = ground (arith, e) in rw f (inl (ground (arith, e)))
  | inr e ↦
      let rest : any (is_bond a b) xs ≡ true = ground (arith, e, h) in
      elim (Bool-cases (is_friend_row a x)) [
        | inl f ↦ rw f (inr (bond-Has a b xs rest))
        | inr f ↦ rw f (bond-Has a b xs rest)
      ]
]

bond_comm : (a b : ℕ) (xs : List FriendRow) → any (is_bond a b) xs ≡ any (is_bond b a) xs
bond_comm a b [] = refl
bond_comm a b (x ∷ xs) = ground (arith, bond_comm a b xs)

-- A user is in the list of friends of another exactly if an accepted row joins the two, and exactly
-- if the other is in the list of the user.
pub list_friends-mutual :
    (a b : ℕ) (db : Circle)
    → (Has b (list_friends a db) ↔ (are_friends a b db ≡ true))
      × (Has b (list_friends a db) ↔ Has a (list_friends b db))
unfolding list_friends
list_friends-mutual a b db = (
  (Has-bond a b db.rows, bond-Has a b db.rows),
  (
    λ h. bond-Has b a db.rows (sym (bond_comm a b db.rows) ∙ Has-bond a b db.rows h),
    λ h. bond-Has a b db.rows (bond_comm a b db.rows ∙ Has-bond b a db.rows h),
  ),
)

found_last :
    (p : FriendRow → Bool) (xs : List FriendRow) (x : FriendRow)
    → p x ≡ true
    → (r : FriendRow) × (find p (xs ++ x ∷ []) ≡ some r)
found_last p [] x e = (x, rw e refl)
found_last p (y ∷ xs) x e = elim (Bool-cases (p y)) [
  | inl k ↦ (y, rw k refl)
  | inr k ↦ rw k (found_last p xs x e)
]

bond_last :
    (a b id : ℕ) (xs : List FriendRow) (x : FriendRow)
    → has_row_id id x ≡ true
    → between a b x ≡ true
    → any (is_bond a b) (update_where (has_row_id id) accept_row (xs ++ x ∷ [])) ≡ true
bond_last a b id [] x e k = ground (arith, e, k)
bond_last a b id (y ∷ xs) x e k = ground (arith, bond_last a b id xs x e k)

abbrev pub request_of : ℕ → ℕ → ℕ → FriendRow
request_of id requester addressee = record {
  id = id;
  requester_id = requester;
  addressee_id = addressee;
  status = pending;
}

not_directed :
    (a b : ℕ) (xs : List FriendRow)
    → find (between a b) xs ≡ none
    → any (is_directed a b) xs ≡ false
not_directed a b [] h = refl
not_directed a b (x ∷ xs) h = elim (Bool-cases (between a b x)) [
  | inl e ↦ absurd (cc (rw e at h))
  | inr e ↦
      let off : is_directed a b x ≡ false = ground (arith, e) in
      rw off (not_directed a b xs (rw e at h))
]

request_stored :
    (requester : ℕ) (name : String) (u : ℕ × String) (db : Circle)
    → find (is_named name) db.users ≡ some u
    → (u.0 == requester) ≡ false
    → find (between requester u.0) db.rows ≡ none
    → any (has_user_id requester) db.users ≡ true
    → (run (sends requester name) db).rows ≡ db.rows ++ request_of db.next_id requester u.0 ∷ []
unfolding send_request look_up insert_request
request_stored requester name u db e k l m =
    rw
      (run, send_request, look_up, insert_request, e, k, l, m, not_directed requester u.0 db.rows l)
      refl

answered :
    (id a b : ℕ) (xs : List FriendRow) (db : Circle)
    → db.rows ≡ xs ++ request_of id a b ∷ []
    → are_friends a b (run (responds id b true) db) ≡ true
unfolding respond
answered id a b xs db e =
    let (s, f) = found_last (is_addressed id b) xs (request_of id a b) (ground arith) in
    let g : find (is_addressed id b) db.rows ≡ some s = ap (find (is_addressed id b)) e ∙ f in
    rw (run, respond, g)
      (ap (λ ys. any (is_bond a b) (update_where (has_row_id id) accept_row ys)) e
        ∙ bond_last a b id xs (request_of id a b) (ground arith) (ground arith))

-- A request to an existing user who is not the sender, between two users without a row, is stored,
-- and once the user who was asked accepts it the two are friends.
pub send_request-respond :
    (requester : ℕ) (name : String) (u : ℕ × String) (db : Circle)
    → find (is_named name) db.users ≡ some u
    → (u.0 == requester) ≡ false
    → find (between requester u.0) db.rows ≡ none
    → any (has_user_id requester) db.users ≡ true
    → are_friends requester u.0 (run (responds db.next_id u.0 true) (run (sends requester name) db))
      ≡ true
send_request-respond requester name u db e k l m =
    answered db.next_id requester u.0 db.rows _ (request_stored requester name u db e k l m)
