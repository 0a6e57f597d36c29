-- ===== src/SnakeLadders/Histories.antt =====
-- Any sequence of calls on a game of Snake_Ladders/main.go, in any order and with any arguments.
use low_level_design_in_go.Base.{ℕ, ◌≡◌, refl, String, not, true, false, List, [], ◌∷◌}
use low_level_design_in_go.Base.Int.{ℤ}
use low_level_design_in_go.Base.Run.{Run, ok, ◌>>=◌, Returns, returns, Returns-bind}
use low_level_design_in_go.SnakeLadders.{
  SnakeLadders, game_finished, is_not_started, is_in_progress, new_snakes_ladders, add_player,
  add_snake, add_ladder, start, play_turn,
}
use low_level_design_in_go.SnakeLadders.Invariant.{IsValid, new-IsValid}
use low_level_design_in_go.SnakeLadders.Setup.{
  add_player-Kept, add_snake-Kept, add_ladder-Kept, start-Kept,
}
use low_level_design_in_go.SnakeLadders.Turns.{play_turn-IsValid, play_turn-refused}

-- The calls that change a game, with the random values that they draw.
pub data Call : Type 0 where
  adds_player : String → String → Call
  adds_snake adds_ladder : ℤ → ℤ → Call
  starts : Call
  plays : ℕ → Call

unfoldable pub step : SnakeLadders → Call → Run SnakeLadders
step g (adds_player id name) = ok (add_player g id name).0
step g (adds_snake head tail) = add_snake g head tail >>= λ (h, _). ok h
step g (adds_ladder at end) = add_ladder g at end >>= λ (h, _). ok h
step g starts = ok (start g).0
step g (plays d) = play_turn g d >>= λ (h, _, _). ok h

unfoldable pub run_calls : SnakeLadders → List Call → Run SnakeLadders
unfolding step
run_calls g [] = ok g
run_calls g (c ∷ cs) = step g c >>= λ h. run_calls h cs

step-IsValid : (g : SnakeLadders) (c : Call) → IsValid g → Returns IsValid (step g c)
unfolding step
step-IsValid g (adds_player id name) v = returns (add_player-Kept g id name v).valid
step-IsValid g (adds_snake head tail) v =
    Returns-bind (add_snake-Kept g head tail v) (λ r k. returns k.valid)
step-IsValid g (adds_ladder at end) v =
    Returns-bind (add_ladder-Kept g at end v) (λ r k. returns k.valid)
step-IsValid g starts v = returns (start-Kept g v).valid
step-IsValid g (plays d) v = Returns-bind (play_turn-IsValid g d v) (λ r k. returns k)

run_from-IsValid :
    (g : SnakeLadders) (cs : List Call) → IsValid g → Returns IsValid (run_calls g cs)
unfolding run_calls
run_from-IsValid g [] v = returns v
run_from-IsValid g (c ∷ cs) v = Returns-bind (step-IsValid g c v) (λ h w. run_from-IsValid h cs w)

-- Whatever calls are made on a new game, in any order and with any arguments and dice, none of them
-- panics, and the game they leave is well formed: the board has its two arrays with every snake
-- going down and every ladder up, the count of sixes is at most two, and the status fits the
-- players' squares.
pub run_calls-IsValid : (cs : List Call) → Returns IsValid (run_calls new_snakes_ladders cs)
run_calls-IsValid cs = run_from-IsValid new_snakes_ladders cs new-IsValid

step_finished :
    (g : SnakeLadders) (c : Call)
    → not (is_not_started g.status) ≡ true
    → is_in_progress g.status ≡ false
    → step g c ≡ ok g
unfolding step add_player add_snake add_ladder start
step_finished g (adds_player id name) h idle = rw h
step_finished g (adds_snake head tail) h idle = rw h
step_finished g (adds_ladder at end) h idle = rw h
step_finished g starts h idle = rw h
step_finished g (plays d) h idle = rw (play_turn-refused g d idle)

-- A finished game is final: no sequence of calls changes it.
pub run_calls-finished :
    (g : SnakeLadders) (cs : List Call) → g.status ≡ game_finished → run_calls g cs ≡ ok g
unfolding run_calls
run_calls-finished g [] e = refl
run_calls-finished g (c ∷ cs) e = rw (step_finished g c (rw e) (rw e)) (run_calls-finished g cs e)
