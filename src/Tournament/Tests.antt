-- ===== src/Tournament/Tests.antt =====
-- A tournament of five players for Chess-Backend/src/models/Tournament.js.
use end_to_end_kubernetes_ch.Base.{◌≡◌, refl, none, some, List, [], ◌∷◌, filter, arith}
use end_to_end_kubernetes_ch.Store.{count_where}
use end_to_end_kubernetes_ch.Tournament.{
  TournamentRow, Cups, open_phase, in_progress, join, in_round, is_seat_of, next_pow2, pow2_from,
  advance_round,
}
use end_to_end_kubernetes_ch.Tournament.Start.{start, lay_out, fill, shuffle, users_of}
use end_to_end_kubernetes_ch.Tournament.Bracket.{slots, is_user, start-slots}
use end_to_end_kubernetes_ch.Tournament.Seats.{SeatsOk, join-SeatsOk}
use end_to_end_kubernetes_ch.Tournament.Results.{HasGhost, Report, report_all}
use end_to_end_kubernetes_ch.Tournament.Stuck.{Kept, report_all-stuck}

abbrev pub cup : TournamentRow
cup = record { id = 1; creator_id = 11; max_players = 8; status = open_phase; winner_id = none }

abbrev pub five : Cups
five = record {
  tournaments = cup ∷ [];
  players = (1, 11) ∷ (1, 12) ∷ (1, 13) ∷ (1, 14) ∷ (1, 15) ∷ [];
  matches = [];
  next_id = 2;
}

join-SeatsOk_example : SeatsOk 8 1 12 (join 1 16 five).0.players
join-SeatsOk_example = join-SeatsOk cup 1 16 12 five refl (omega arith, omega arith)

abbrev pub begun : Cups
begun = elim (start (λ i. i) 1 11 five) [ none ↦ five | some r ↦ r.0 ]

-- Three matches with players, and one without.
abbrev pub all_reports : List Report
all_reports = (2, 11, 11) ∷ (3, 13, 14) ∷ (5, 15, 15) ∷ []

abbrev pub running_cup : TournamentRow
running_cup = record cup { status = in_progress }

report_all-stuck_example :
    HasGhost 1 1 (report_all all_reports begun)
    × Kept 1 1 (some running_cup) (report_all all_reports begun)
unfolding start shuffle lay_out fill next_pow2 pow2_from advance_round
report_all-stuck_example =
    report_all-stuck 1 1 all_reports (some running_cup) begun refl (refl, refl)

-- The same five, shuffled
abbrev pub shuffled : Cups
shuffled = elim (start (λ i. 0) 1 11 five) [ none ↦ five | some r ↦ r.0 ]

start-slots_example :
    slots 13 (filter (in_round 1 1) shuffled.matches)
    ≡ count_where (is_user 13) (users_of (filter (is_seat_of 1) five.players))
unfolding start shuffle lay_out fill next_pow2 pow2_from advance_round
start-slots_example = start-slots (λ i. 0) 1 11 13 five shuffled refl refl
