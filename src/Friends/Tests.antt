-- ===== src/Friends/Tests.antt =====
-- Three users for Chess-Backend/src/models/Friendship.js.
use end_to_end_kubernetes_ch.Base.{ℕ, ◌≤◌, ◌≡◌, ◌⊎◌, refl, true, List, [], ◌∷◌, arith}
use end_to_end_kubernetes_ch.Friends.{
  pending, accepted, Circle, responds, between, has_row_id, look_up, insert_request, respond,
  remove, run,
}
use end_to_end_kubernetes_ch.Store.{count_where}
use end_to_end_kubernetes_ch.Friends.Statements.{
  Desk, Statement, looks, inserts, writes, deletes, execute_all,
}
use end_to_end_kubernetes_ch.Friends.Consent.{are_friends, consents, run-consents}

abbrev pub circle : Circle
circle = record {
  users = (1, "ana") ∷ (2, "bob") ∷ (3, "eve") ∷ [];
  rows =
      record { id = 5; requester_id = 1; addressee_id = 2; status = pending }
      ∷ record { id = 6; requester_id = 3; addressee_id = 1; status = accepted }
      ∷ [];
  next_id = 7;
}

-- Eve and Bob ask each other at once, Ana asks Bob again, and Bob accepts what Ana asked him.
abbrev pub race : List Statement
race =
    looks 2 "eve"
    ∷ looks 3 "bob"
    ∷ inserts 1
    ∷ inserts 0
    ∷ looks 1 "bob"
    ∷ writes true 5
    ∷ deletes 6 1
    ∷ []

abbrev pub desk : Desk
desk = record { circle = circle; waiting = [] }

-- Both inserts are made: the two users have a row in each direction.
race_doubles : count_where (between 2 3) (execute_all race desk).circle.rows ≡ 2
unfolding look_up insert_request remove
race_doubles = refl

run-consents_example :
    (are_friends 1 2 circle ≡ true) ⊎ (consents 1 2 (responds 5 2 true) circle ≡ true)
unfolding respond
run-consents_example = run-consents 1 2 (responds 5 2 true) circle unique befriended
  where
    unique : (id : ℕ) → count_where (has_row_id id) circle.rows ≤ 1
    unique id = ground arith

    befriended : are_friends 1 2 (run (responds 5 2 true) circle) ≡ true
    befriended = refl
