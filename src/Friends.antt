-- ===== src/Friends.antt =====
-- Chess-Backend/src/models/Friendship.js: friend requests, their answers and the lists of them.
-- The table `friendships` refers to `users`, whose names are unique; `(requester_id, addressee_id)`
-- is unique. The calls have no transaction: here each is one step, and `Statements` has them in parts.
-- The order of a list and the joined columns of a user are left out.
pub mod Statements
pub mod Pairs
pub mod Consent
pub mod Tests
use Prim.Native.String.{String}
use text.Mathlib.Text.{◌==◌ as str_eq}
use end_to_end_kubernetes_ch.Base.{
  ℕ, suc, Bool, true, false, not, Option, none, some, List, [], ◌∷◌, ◌++◌, ◌&&◌, ◌||◌, ◌==◌,
  if◌then◌else◌, find, filter, any, map,
}
use end_to_end_kubernetes_ch.Store.{update_where, is_some}

-- `status`
pub data RequestStatus : Type 0 where
  pending accepted : RequestStatus

-- A row of `friendships`.
pub record FriendRow : Type 0 where
  pub id : ℕ
  pub requester_id : ℕ
  pub addressee_id : ℕ
  pub status : RequestStatus

-- The ids and names of `users`, the table, and its next serial.
pub record Circle : Type 0 where
  pub users : List (ℕ × String)
  pub rows : List FriendRow
  pub next_id : ℕ

-- What a call answers: an error, or what it did.
pub data FriendReply : Type 0 where
  user_not_found yourself already_friends already_pending request_not_found declined : FriendReply
  friendship : FriendRow → FriendReply

abbrev pub is_accepted : RequestStatus → Bool
is_accepted pending = false
is_accepted accepted = true

-- `(requester_id=$1 AND addressee_id=$2) OR (requester_id=$2 AND addressee_id=$1)`
abbrev pub between : ℕ → ℕ → FriendRow → Bool
between a b r =
    (r.requester_id == a && r.addressee_id == b) || (r.requester_id == b && r.addressee_id == a)

abbrev pub is_named : String → ℕ × String → Bool
is_named name u = str_eq u.1 name

abbrev pub has_user_id : ℕ → ℕ × String → Bool
has_user_id id u = u.0 == id

-- `UNIQUE (requester_id, addressee_id)`
abbrev pub is_directed : ℕ → ℕ → FriendRow → Bool
is_directed a b r = r.requester_id == a && r.addressee_id == b

-- The insert, which throws where the requester is no user or has asked the addressee before.
unfoldable pub insert_request : ℕ → ℕ → Circle → Option (Circle × FriendReply)
insert_request requester addressee db =
    let r : FriendRow = record {
      id = db.next_id;
      requester_id = requester;
      addressee_id = addressee;
      status = pending;
    } in
    if any (has_user_id requester) db.users && not (any (is_directed requester addressee) db.rows)
    then some (record db { rows = db.rows ++ r ∷ []; next_id = suc db.next_id }, friendship r)
    else none

-- What the two queries of `sendRequest` say: its answer, or the addressee of the insert.
pub data LookUp : Type 0 where
  refused : FriendReply → LookUp
  clear : ℕ → LookUp

-- `sendRequest` before its insert
unfoldable pub look_up : ℕ → String → Circle → LookUp
look_up requester name db = elim (find (is_named name) db.users) [
  | none ↦ refused user_not_found
  | some (addressee, _) ↦
      if addressee == requester
      then refused yourself
      else elim (find (between requester addressee) db.rows) [
        | some r ↦ refused (if is_accepted r.status then already_friends else already_pending)
        | none ↦ clear addressee
      ]
]

-- `sendRequest`, if no other call comes between its statements
unfoldable pub send_request : ℕ → String → Circle → Option (Circle × FriendReply)
send_request requester name db = elim (look_up requester name db) [
  | refused reply ↦ some (db, reply)
  | clear addressee ↦ insert_request requester addressee db
]

-- `WHERE id=$1 AND addressee_id=$2`
abbrev pub is_addressed : ℕ → ℕ → FriendRow → Bool
is_addressed id user r = r.id == id && r.addressee_id == user

-- `WHERE id=$1`
abbrev pub has_row_id : ℕ → FriendRow → Bool
has_row_id id r = r.id == id

abbrev pub accept_row : FriendRow → FriendRow
accept_row r = record r { status = accepted }

-- `respond`
unfoldable pub respond : ℕ → ℕ → Bool → Circle → Circle × FriendReply
respond id user accept db = elim (find (is_addressed id user) db.rows) [
  | none ↦ (db, request_not_found)
  | some r ↦
      if accept
      then (
        record db { rows = update_where (has_row_id id) accept_row db.rows },
        friendship (accept_row r),
      )
      else (record db { rows = filter (λ s. not (has_row_id id s)) db.rows }, declined)
]

-- `id=$1 AND (requester_id=$2 OR addressee_id=$2)`
abbrev pub is_own : ℕ → ℕ → FriendRow → Bool
is_own id user r = r.id == id && (r.requester_id == user || r.addressee_id == user)

-- `remove`
unfoldable pub remove : ℕ → ℕ → Circle → Circle × Bool
remove id user db = (
  record db { rows = filter (λ s. not (is_own id user s)) db.rows },
  any (is_own id user) db.rows,
)

abbrev pub is_friend_row : ℕ → FriendRow → Bool
is_friend_row user r = is_accepted r.status && (r.requester_id == user || r.addressee_id == user)

-- The `CASE` of the join.
abbrev pub other_of : ℕ → FriendRow → ℕ
other_of user r = if r.requester_id == user then r.addressee_id else r.requester_id

-- `listFriends`, as the ids of the friends
unfoldable pub list_friends : ℕ → Circle → List ℕ
list_friends user db = map (other_of user) (filter (is_friend_row user) db.rows)

abbrev pub is_incoming : ℕ → FriendRow → Bool
is_incoming user r = not (is_accepted r.status) && r.addressee_id == user

-- `listIncomingRequests`, as the ids of the requests and of their senders
unfoldable pub list_incoming_requests : ℕ → Circle → List (ℕ × ℕ)
list_incoming_requests user db =
    map (λ (r : FriendRow). (r.id, r.requester_id)) (filter (is_incoming user) db.rows)

-- A call that no other interrupts, and what it makes of the table. A call that throws changes nothing.
pub data Call : Type 0 where
  sends : ℕ → String → Call
  responds : ℕ → ℕ → Bool → Call
  removes : ℕ → ℕ → Call

abbrev pub run : Call → Circle → Circle
run (sends requester name) db = elim (send_request requester name db) [ none ↦ db | some r ↦ r.0 ]
run (responds id user accept) db = (respond id user accept db).0
run (removes id user) db = (remove id user db).0
