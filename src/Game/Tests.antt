-- ===== src/Game/Tests.antt =====
-- Small games for Chess-Frontend/src/hooks/useChessGame.js.
use end_to_end_kubernetes_ch.Base.{
  ℕ, suc, length, get_last?, List, [], ◌∷◌, ◌++◌, ◌≡◌, ◌↔◌, refl, inl, inr, false, none, some,
  arith, ◌+ℤ◌, Has,
}
use end_to_end_kubernetes_ch.Engine.{
  Board, IsBoard, white, black, pawn, queen, king, piece, cell, put, init_board,
}
use end_to_end_kubernetes_ch.Engine.Moves.{
  sl, slide, hop, raw_moves, piece_moves, app_mv, pawn_pushes, castles, pawn_double, pawn_capture,
}
use end_to_end_kubernetes_ch.Engine.Check.{
  in_chk, get_legal, is_safe, take_ep, squares, last_king, hits, has_any,
}
use end_to_end_kubernetes_ch.Engine.InCheck.{Attacked}
use end_to_end_kubernetes_ch.Engine.Tests.{duel, duel-LoneKing, empty_board}
use end_to_end_kubernetes_ch.Game.{Entry, Game, new_game, start_position, all_rights}
use end_to_end_kubernetes_ch.Game.Apply.{apply_move, apply_piece, finish, moved_board, next_status}
use end_to_end_kubernetes_ch.Game.Handlers.{
  undo, clicks, undoes, act_all, act, click, do_promo, Action,
}
use end_to_end_kubernetes_ch.Game.SoundGame.{IsSoundGame, act_all-IsSoundGame}
use end_to_end_kubernetes_ch.Game.Legality.{get_legal-not_Attacked}
use end_to_end_kubernetes_ch.Game.CastlingMoves.{get_legal-castles, ShortCastle, LongCastle}
use end_to_end_kubernetes_ch.Game.FenFields.{board_to_fen, restored, load_fen}
use end_to_end_kubernetes_ch.Game.FenRestored.{load_fen-board_to_fen}
use end_to_end_kubernetes_ch.Game.Replay.{replay_step, replay_to_snapshots}
use end_to_end_kubernetes_ch.Game.ReplayedGame.{act_all-replay_to_snapshots}
use end_to_end_kubernetes_ch.Game.Replayed.{replay_step-do_promo}
use end_to_end_kubernetes_ch.Game.Undo.{undo-apply_move}

-- The king steps off the rook's column.
get_legal-not_Attacked_example :
    Has (7, 3) (raw_moves (duel 4) 7 4 none none)
    × ¬ Attacked (moved_board (duel 4) white king none 7 4 7 3) black (7, 3)
unfolding get_legal is_safe take_ep raw_moves piece_moves hop in_chk squares last_king hits sl slide
    cell put app_mv moved_board ◌+ℤ◌
get_legal-not_Attacked_example =
    get_legal-not_Attacked (duel 4) 7 4 none none white king (7, 3) (7, 3) refl
      (inr (inr (inl refl))) (duel-LoneKing 3 (omega arith))

-- The rook gives check, and castling is offered all the same.
get_legal-castles_example :
    (Has (7, 6) (get_legal (duel 4) 7 4 none (some all_rights))
      ↔ ShortCastle (duel 4) white none all_rights)
    × (Has (7, 2) (get_legal (duel 4) 7 4 none (some all_rights))
        ↔ LongCastle (duel 4) white none all_rights)
unfolding cell put
get_legal-castles_example = get_legal-castles (duel 4) white none all_rights refl

undo-apply_move_example : undo (apply_move 0 new_game 6 4 4 4 none false).0 ≡ new_game
unfolding cell init_board
undo-apply_move_example = undo-apply_move 0 new_game 6 4 4 4 none false white pawn refl refl refl

-- A white pawn on a7.
abbrev pub far_pawn : Game
far_pawn = record new_game {
  position = record start_position { board = put empty_board 1 0 (some (piece white pawn)) };
}

init_board-IsBoard : IsBoard init_board
unfolding init_board
init_board-IsBoard = record {
  rows = refl;
  columns = (refl, (refl, (refl, (refl, (refl, (refl, (refl, (refl, tt))))))));
}

load_fen-board_to_fen_example :
    load_fen 7 (board_to_fen init_board black all_rights (some (5, 4)) []) []
    ≡ some (restored 7 init_board black all_rights (some (5, 4)) none [])
load_fen-board_to_fen_example =
    load_fen-board_to_fen 7 init_board black all_rights (some (5, 4)) [] [] none init_board-IsBoard
      (omega arith) refl

-- 1. e4, a click on a square that is not offered, and an undo
act_all-IsSoundGame_example : IsSoundGame (
    act_all
      ((0, clicks 6 4) ∷ (1, clicks 4 4) ∷ (2, clicks 1 4) ∷ (3, clicks 5 5) ∷ (4, undoes) ∷ [])
      new_game)
act_all-IsSoundGame_example = act_all-IsSoundGame _ (refl, (refl, (refl, (refl, (refl, tt)))))

-- 1. e4 a6 2. e5 d5, after which e5 takes d5 en passant
abbrev pub passing : List (ℕ × Action)
passing =
    (0, clicks 6 4)
    ∷ (1, clicks 4 4)
    ∷ (2, clicks 1 0)
    ∷ (3, clicks 2 0)
    ∷ (4, clicks 4 4)
    ∷ (5, clicks 3 4)
    ∷ (6, clicks 1 3)
    ∷ (7, clicks 3 3)
    ∷ []

abbrev pub passed_game : Game
passed_game = act_all passing new_game

replay_step-do_promo_example :
    let done = (do_promo 9 queen (apply_move 8 passed_game 3 4 2 3 none false).0).0 in
    (m : Entry) × (done.move_log ≡ passed_game.move_log ++ m ∷ [])
    × (replay_step passed_game.board m ≡ some done.board)
unfolding act_all act click cell init_board put get_legal is_safe take_ep raw_moves piece_moves hop
    in_chk squares last_king hits sl slide app_mv moved_board ◌+ℤ◌ apply_move apply_piece finish
    pawn_pushes castles pawn_double pawn_capture next_status has_any
replay_step-do_promo_example =
    replay_step-do_promo 8 9 passed_game 3 4 2 3 pawn queen
      (record {
        sound =
            (act_all-IsSoundGame passing
              (refl, (refl, (refl, (refl, (refl, (refl, (refl, (refl, tt))))))))).position.sound;
        there = refl;
        legal = inr (inl refl);
      })
      refl

abbrev pub taking : List (ℕ × Action)
taking = passing ++ (8, clicks 3 4) ∷ (9, clicks 2 3) ∷ []

abbrev pub taken_game : Game
taken_game = act_all taking new_game

act_all-replay_to_snapshots_example :
    (boards : List Board) × (replay_to_snapshots taken_game.move_log ≡ some boards)
    × (length boards ≡ suc (length taken_game.move_log))
    × (get_last? boards ≡ some taken_game.board)
act_all-replay_to_snapshots_example =
    act_all-replay_to_snapshots taking
      (refl, (refl, (refl, (refl, (refl, (refl, (refl, (refl, (refl, (refl, tt))))))))))
