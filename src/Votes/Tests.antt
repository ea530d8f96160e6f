-- ===== src/Votes/Tests.antt =====
-- A server for Chess-Backend/src/services/rematchVotes.js that answers every command.
use end_to_end_kubernetes_ch.Base.{ℕ, ◌≡◌, refl, true, some, List, [], ◌∷◌, arith}
use end_to_end_kubernetes_ch.Rooms.Rematch.{
  has_vote, add_vote, vote_count, remove_vote, clear_votes,
}
use end_to_end_kubernetes_ch.Votes.{
  counted, carried_out, refused, Call, adds, removes, clears, local_call, local_add, local_remove,
  local_clear, answers, vote_call,
}
use end_to_end_kubernetes_ch.Votes.Valkey.{Valkey, Serves, redis_call}
use end_to_end_kubernetes_ch.Votes.Counts.{
  Distinct, has_vote-add_vote, vote_count-add_vote, has_vote-remove_vote, vote_count-remove_vote,
  has_vote-clear_votes, vote_count-clear_votes, Distinct-filter, Distinct-add_vote,
}
use end_to_end_kubernetes_ch.Votes.Refines.{backends_refine}

-- Its database is a list of pairs without doubles.
abbrev pub server : Valkey
server = record {
  Db = (votes : List (ℕ × ℕ)) × Distinct votes;
  sadd = λ k u db. ((add_vote k u db.0, Distinct-add_vote k u db.0 db.1), true);
  srem = λ k u db. ((remove_vote k u db.0, Distinct-filter _ db.0 db.1), true);
  expire = λ k s db. (db, true);
  del = λ k db. ((clear_votes k db.0, Distinct-filter _ db.0 db.1), true);
  scard = λ k db. some (vote_count k db.0);
}

abbrev pub server_serves : Serves server
server_serves = record {
  member = λ k u db. has_vote k u db.0;
  size = λ k db. vote_count k db.0;
  sadd_answers = λ k u db. refl;
  srem_answers = λ k u db. refl;
  expire_answers = λ k s db. refl;
  del_answers = λ k db. refl;
  scard_answers = λ k db. refl;
  member-sadd = λ k u j v db. has_vote-add_vote k u db.0 j v;
  size-sadd = λ k u j db. vote_count-add_vote k u db.0 j;
  member-srem = λ k u j v db. has_vote-remove_vote k u db.0 j v;
  size-srem = λ k u j db. vote_count-remove_vote k u db.0 j db.1;
  member-expire = λ k s j v db. refl;
  size-expire = λ k s j db. refl;
  member-del = λ k j v db. has_vote-clear_votes k db.0 j v;
  size-del = λ k j db. vote_count-clear_votes k db.0 j;
}

abbrev pub calls : List Call
calls =
    adds 7 1
    ∷ adds 7 1
    ∷ adds 8 3
    ∷ adds 7 2
    ∷ removes 7 1
    ∷ adds 7 1
    ∷ clears 7
    ∷ adds 7 2
    ∷ adds 0 2
    ∷ []

local_answers :
    answers local_call calls []
    ≡ counted 1
      ∷ counted 1
      ∷ counted 1
      ∷ counted 2
      ∷ carried_out true
      ∷ counted 2
      ∷ carried_out true
      ∷ counted 1
      ∷ refused
      ∷ []
unfolding local_add local_remove local_clear
local_answers = refl

backends_refine_example :
    (answers local_call calls [] ≡ answers vote_call calls [])
    × (answers (redis_call server) calls ([], tt) ≡ answers vote_call calls [])
backends_refine_example =
    backends_refine server server_serves ([], tt) calls (λ k u. refl) (λ k. refl) (omega arith)
