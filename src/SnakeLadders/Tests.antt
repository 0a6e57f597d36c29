-- ===== src/SnakeLadders/Tests.antt =====
-- Runs of Snake_Ladders/main.go on small games.
use low_level_design_in_go.Base.{ℕ, ◌+◌, ◌<◌, ◌≡◌, refl, some, List, [], ◌∷◌, arith}
use low_level_design_in_go.Base.Int.{pos, negsuc}
use low_level_design_in_go.Base.Run.{ok, ◌>>=◌, Returns}
use low_level_design_in_go.SnakeLadders.{
  SnakeLadders, Player, game_in_progress, game_finished, new_snakes_ladders, add_player, add_snake,
  add_ladder, start, play_turn, follow, play_six, play_move, invalid_snake,
}
use low_level_design_in_go.SnakeLadders.Invariant.{IsValid, new-IsValid, position_at}
use low_level_design_in_go.SnakeLadders.Rules.{destination, target}
use low_level_design_in_go.SnakeLadders.Turns.{Running, Turned, play_turn-Turned}
use low_level_design_in_go.SnakeLadders.Sixes.{
  then_play, Forfeited, three_sixes_forfeit, six_then_plain, six_to_top_stays,
}
use low_level_design_in_go.SnakeLadders.Histories.{
  Call, adds_player, adds_snake, adds_ladder, starts, plays, run_calls, run_calls-IsValid,
  run_calls-finished,
}

abbrev two_players : SnakeLadders
two_players = (add_player (add_player new_snakes_ladders "A" "ann").0 "B" "bob").0

abbrev setup : List Call
setup =
    adds_player "A" "ann"
    ∷ adds_player "B" "bob"
    ∷ adds_snake (pos 10) (pos 3)
    ∷ adds_ladder (pos 3) (pos 50)
    ∷ starts
    ∷ []

ladder_after_snake :
    (run_calls new_snakes_ladders setup >>= λ g.
    then_play (play_turn g 6) 4 >>= λ (h, _, _). ok (position_at h.players 0))
    ≡ ok 50
unfolding play_turn play_six play_move follow start add_player new_snakes_ladders add_snake
    add_ladder run_calls
ladder_after_snake = refl

bad_snake : add_snake two_players (negsuc 3) (pos 4) ≡ ok (two_players, some invalid_snake)
unfolding add_snake add_player new_snakes_ladders
bad_snake = refl

run_calls-IsValid_example : Returns IsValid (run_calls new_snakes_ladders setup)
run_calls-IsValid_example = run_calls-IsValid setup

-- A running game with ann at the given square.
abbrev ann : ℕ → Player
ann at = record { id = "A"; name = "ann"; position = at }

abbrev bob : Player
bob = record { id = "B"; name = "bob"; position = 7 }

abbrev game : ℕ → SnakeLadders
game at = record new_snakes_ladders { players = ann at ∷ bob ∷ []; status = game_in_progress }

game-positions : (at i : ℕ) → at < 100 → position_at (ann at ∷ bob ∷ []) i < 100
game-positions at ℕ.zero h = h
game-positions at (ℕ.suc ℕ.zero) h = omega arith
game-positions at (ℕ.suc (ℕ.suc i)) h = omega arith

game-Running : (at : ℕ) → at < 100 → Running (game at) (ann at)
unfolding new_snakes_ladders
game-Running at h = record {
  valid = record {
    board = new-IsValid.board;
    sixes = omega arith;
    phase = (omega arith, refl, omega arith, λ i. game-positions at i h);
  };
  status = refl;
  on_turn = refl;
}

abbrev finished : SnakeLadders
finished = record new_snakes_ladders { status = game_finished }

play_turn-Turned_example : Returns (Turned (game 97) 3) (play_turn (game 97) 3)
play_turn-Turned_example = play_turn-Turned (game-Running 97 (omega arith)) 3

three_sixes_forfeit_example :
    Returns (Forfeited (game 20)) (then_play (then_play (play_turn (game 20) 6) 6) 6)
unfolding new_snakes_ladders
three_sixes_forfeit_example = three_sixes_forfeit (game-Running 20 (omega arith)) refl (omega arith)

six_then_plain_example :
    Returns
      (λ r. position_at r.0.players 0 ≡ destination (game 20) (target (game 20) (ann 20) 6 + 4))
      (then_play (play_turn (game 20) 6) 4)
unfolding new_snakes_ladders
six_then_plain_example =
    six_then_plain 4 (game-Running 20 (omega arith)) (omega arith) (omega arith) (omega arith)

six_to_top_stays_example :
    Returns
      (λ r. (r.0.players ≡ (game 94).players) × (r.0.status ≡ game_in_progress))
      (then_play (play_turn (game 94) 6) 1)
unfolding new_snakes_ladders
six_to_top_stays_example =
    six_to_top_stays 1 (game-Running 94 (omega arith)) (omega arith) (omega arith) (omega arith)

run_calls-finished_example : run_calls finished (plays 3 ∷ starts ∷ []) ≡ ok finished
run_calls-finished_example = run_calls-finished finished (plays 3 ∷ starts ∷ []) refl
