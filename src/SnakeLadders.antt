-- ===== src/SnakeLadders.antt =====
-- Snake_Ladders/main.go: the board, the players and the turns of a game.
-- A `*Player` that points into `Players` is the player's index. Squares are numbers: the setters
-- take any `int` and store only checked squares. The roll of `rollDice` and the random ID of a
-- player are arguments of the calls that use them.
pub mod Invariant
pub mod Setup
pub mod Rules
pub mod Turns
pub mod Sixes
pub mod Histories
pub mod Tests
use low_level_design_in_go.Base.{
  ℕ, ◌+◌, ◌*◌, ◌%◌, String, Bool, true, false, not, ◌||◌, Option, none, some, List, [], ◌∷◌, ◌++◌,
  ltb, leb, ◌==◌, if◌then◌else◌, length, replicate,
}
use low_level_design_in_go.Base.Int.{ℤ, pos, pos_part, ltb_ℤ}
use low_level_design_in_go.Base.Run.{Run, ok, ◌>>=◌, index, assign}

pub data GameStatus : Type 0 where
  game_not_started game_in_progress game_finished : GameStatus

pub record Player : Type 0 where
  pub id : String
  pub name : String
  pub position : ℕ

pub record TurnResult : Type 0 where
  pub player : ℕ
  pub dice_roll : ℕ
  pub from_position : ℕ
  pub to_position : ℕ

-- The texts of the errors, one constructor for each.
pub data Error : Type 0 where
  game_status : GameStatus → Error
  invalid_snake already_snake ladder_at_head : Error
  invalid_ladder already_ladder snake_at_start : Error
  need_two_players : Error
  three_sixes overshooting_six overshooting six_again : Error

pub record SnakeLadders : Type 0 where
  pub players : List Player
  pub snakes : List ℕ
  pub ladders : List ℕ
  pub current_turn : ℕ
  pub consecutive_sixes : ℕ
  pub status : GameStatus
  pub winner : Option ℕ

unfoldable pub new_snakes_ladders : SnakeLadders
new_snakes_ladders = record {
  players = [];
  snakes = replicate 101 0;
  ladders = replicate 101 0;
  current_turn = 0;
  consecutive_sixes = 0;
  status = game_not_started;
  winner = none;
}

abbrev pub is_not_started : GameStatus → Bool
is_not_started game_not_started = true
is_not_started game_in_progress = false
is_not_started game_finished = false

abbrev pub is_in_progress : GameStatus → Bool
is_in_progress game_not_started = false
is_in_progress game_in_progress = true
is_in_progress game_finished = false

-- The source's `a <= b` and `a >= b` on `int`.
abbrev pub leb_ℤ : ℤ → ℤ → Bool
leb_ℤ a b = not (ltb_ℤ b a)

-- An operation returns the game after it and its error; `none` is `nil`.
unfoldable pub add_player : SnakeLadders → String → String → SnakeLadders × Option Error
add_player g id name = if not (is_not_started g.status) then (g, some (game_status g.status)) else (
  record g { players = g.players ++ record { id = id; name = name; position = 0 } ∷ [] },
  none,
)

unfoldable pub add_snake : SnakeLadders → ℤ → ℤ → Run (SnakeLadders × Option Error)
add_snake g head tail =
    if not (is_not_started g.status)
    then ok (g, some (game_status g.status))
    else if leb_ℤ head (pos 0) || leb_ℤ (pos 100) head || leb_ℤ tail (pos 0) || leb_ℤ head tail
    then ok (g, some invalid_snake)
    else do
      s ← index g.snakes (pos_part head)
      if not (s == 0) then ok (g, some already_snake) else do
        l ← index g.ladders (pos_part head)
        if not (l == 0) then ok (g, some ladder_at_head) else do
          snakes ← assign g.snakes (pos_part head) (pos_part tail)
          ok (record g { snakes = snakes }, none)

unfoldable pub add_ladder : SnakeLadders → ℤ → ℤ → Run (SnakeLadders × Option Error)
add_ladder g start end =
    if not (is_not_started g.status)
    then ok (g, some (game_status g.status))
    else if leb_ℤ start (pos 0) || leb_ℤ (pos 100) start || leb_ℤ end start || ltb_ℤ (pos 100) end
    then ok (g, some invalid_ladder)
    else do
      l ← index g.ladders (pos_part start)
      if not (l == 0) then ok (g, some already_ladder) else do
        s ← index g.snakes (pos_part start)
        if not (s == 0) then ok (g, some snake_at_start) else do
          ladders ← assign g.ladders (pos_part start) (pos_part end)
          ok (record g { ladders = ladders }, none)

unfoldable pub start : SnakeLadders → SnakeLadders × Option Error
start g =
    if not (is_not_started g.status)
    then (g, some (game_status g.status))
    else if ltb (length g.players) 2
    then (g, some need_two_players)
    else (record g { status = game_in_progress }, none)

-- `g.CurrentTurn = (g.CurrentTurn + 1) % len(g.Players)`
abbrev pub next_turn : SnakeLadders → ℕ
next_turn g = (g.current_turn + 1) % length g.players

-- What PlayTurn gives back: its two results and the game.
abbrev pub Played : Type 0
Played = SnakeLadders × Option TurnResult × Option Error

-- The part of PlayTurn after a roll of six.
unfoldable pub play_six : SnakeLadders → TurnResult → ℕ → Played
play_six g result to_position =
    if g.consecutive_sixes == 2
    then (
      record g { consecutive_sixes = 0; current_turn = next_turn g },
      some result,
      some three_sixes,
    )
    else if ltb 100 to_position
    then (
      record g { consecutive_sixes = 0; current_turn = next_turn g },
      some result,
      some overshooting_six,
    )
    else (record g { consecutive_sixes = g.consecutive_sixes + 1 }, some result, some six_again)

-- `if board[p] != 0 { p = board[p] }`
unfoldable pub follow : List ℕ → ℕ → Run ℕ
follow board p = do v ← index board p; ok (if not (v == 0) then v else p)

-- The part of PlayTurn after any other roll.
unfoldable pub play_move : SnakeLadders → Player → TurnResult → ℕ → Run Played
play_move g current_player result landed =
    if ltb 100 landed
    then ok (
      record g { consecutive_sixes = 0; current_turn = next_turn g },
      some result,
      some overshooting,
    )
    else do
      after_snake ← follow g.snakes landed
      to_position ← follow g.ladders after_snake
      players ← assign g.players g.current_turn (record current_player { position = to_position })
      ok (
        if to_position == 100
            then record g {
              players = players;
              consecutive_sixes = 0;
              winner = some g.current_turn;
              status = game_finished;
            }
            else record g { players = players; consecutive_sixes = 0; current_turn = next_turn g },
        some (record result { to_position = to_position }),
        none,
      )

unfoldable pub play_turn : SnakeLadders → ℕ → Run Played
play_turn g dice =
    if not (is_in_progress g.status) then ok (g, none, some (game_status g.status)) else do
      current_player ← index g.players g.current_turn
      let result : TurnResult = record {
        player = g.current_turn;
        dice_roll = dice;
        from_position = current_player.position;
        to_position = current_player.position;
      }
      let to_position = 6 * g.consecutive_sixes + dice + current_player.position
      if dice == 6
          then ok (play_six g result to_position)
          else play_move g current_player result to_position

unfoldable pub get_current_player : SnakeLadders → Run (Option Player)
get_current_player g =
    if not (is_in_progress g.status)
    then ok none
    else index g.players g.current_turn >>= λ p. ok (some p)

unfoldable pub get_status : SnakeLadders → GameStatus
get_status g = g.status

unfoldable pub get_winner : SnakeLadders → Option ℕ
unfolding get_status
get_winner g = elim (get_status g) [ game_finished ↦ g.winner | _ ↦ none ]
