-- ===== src/SnakeLadders/Sixes.antt =====
-- Runs of sixes in PlayTurn of Snake_Ladders/main.go.
use native.Mathlib.Nat.{mod-eq_of_lt, mod_self}
use low_level_design_in_go.Base.{
  ℕ, suc, ◌+◌, ◌%◌, ◌∙◌, length, ◌≤◌, ◌<◌, ◌≡◌, ◌≢◌, refl, ap, not, false, some, arith,
}
use low_level_design_in_go.Base.Run.{Run, ok, ◌>>=◌, Returns, returns}
use low_level_design_in_go.SnakeLadders.{
  SnakeLadders, Player, Played, game_in_progress, three_sixes, six_again, is_in_progress, play_turn,
  play_six, next_turn,
}
use low_level_design_in_go.SnakeLadders.Invariant.{position_at}
use low_level_design_in_go.SnakeLadders.Rules.{
  Rule, third_six, overshot, again, moved, won, destination, target, passed, result_of,
}
use low_level_design_in_go.SnakeLadders.Turns.{Running, by-Rule, Rule-IsValid, position_at-moved}

-- The game after a six that grants another turn.
abbrev pub counted : SnakeLadders → SnakeLadders
counted g = record g { consecutive_sixes = g.consecutive_sixes + 1 }

module _ {g : SnakeLadders} {p : Player} (run : Running g p) where
  open_guard : not (is_in_progress g.status) ≡ false
  open_guard = rw (run.status)

  pub play_turn-again :
      g.consecutive_sixes ≢ 2
      → target g p 6 ≤ 100
      → play_turn g 6 ≡ ok (counted g, some (result_of g p 6 p.position), some six_again)
  unfolding play_turn play_six
  play_turn-again few near = rw (open_guard, run.on_turn) (ground arith)

  pub play_turn-third :
      g.consecutive_sixes ≡ 2
      → play_turn g 6 ≡ ok (passed g, some (result_of g p 6 p.position), some three_sixes)
  unfolding play_turn play_six
  play_turn-third two = rw (open_guard, run.on_turn) (ground arith)

  counted-Running : g.consecutive_sixes ≢ 2 → target g p 6 ≤ 100 → Running (counted g) p
  counted-Running few near = record {
    valid = Rule-IsValid run (again refl few near);
    status = run.status;
    on_turn = run.on_turn;
  }

-- The second and later calls of a chain: only the game is handed on.
abbrev pub then_play : Run Played → ℕ → Run Played
then_play r d = r >>= λ (g, _, _). play_turn g d

-- The turn has gone from a player to the next one, and from the last one to the first.
abbrev pub IsNext : ℕ → ℕ → ℕ → Type 0
IsNext n i j = (suc i < n → j ≡ suc i) × (suc i ≡ n → j ≡ 0)

next_turn-IsNext : (g : SnakeLadders) → IsNext (length g.players) g.current_turn (next_turn g)
next_turn-IsNext g = (
  (λ more. mod-eq_of_lt (omega (arith, more)) ∙ omega arith),
  λ last. ap (λ i. i % length g.players) (omega (arith, last)) ∙ mod_self (length g.players),
)

-- What a forfeited turn leaves: nobody has moved, the game goes on, no six is counted, the next
-- player is on turn, and the answer is an error.
abbrev pub Forfeited : SnakeLadders → Played → Type 0
Forfeited g (h, result, e) =
    (h.players ≡ g.players)
    × (h.status ≡ game_in_progress)
    × (h.consecutive_sixes ≡ 0)
    × IsNext (length g.players) g.current_turn h.current_turn
    × (e ≡ some three_sixes)

-- In a well-formed game in progress whose player on turn has rolled no six and stands no farther
-- than square 88, three sixes in a row move nobody, answer that the turn is forfeited, and pass the
-- turn on: to the player after this one, or from the last one to the first.
pub three_sixes_forfeit :
    {g : SnakeLadders} {p : Player}
    → Running g p
    → g.consecutive_sixes ≡ 0
    → 12 + p.position ≤ 100
    → Returns (Forfeited g) (then_play (then_play (play_turn g 6) 6) 6)
three_sixes_forfeit {g} {p} run none_yet near =
    let first = play_turn-again run (omega arith) (omega arith) in
    let run1 = counted-Running run (omega arith) (omega arith) in
    let second = play_turn-again run1 (omega arith) (omega arith) in
    let run2 = counted-Running run1 (omega arith) (omega arith) in
    rw (first, second, play_turn-third run2 (omega arith))
      (returns (refl, run.status, refl, next_turn-IsNext g, refl))

-- In a well-formed game in progress whose player on turn has rolled fewer than two sixes, a six and
-- then a roll other than six, whose sum with an earlier six does not overshoot square 100, move the
-- player by that sum, and on along the snake and the ladder there.
pub six_then_plain :
    {g : SnakeLadders} {p : Player} (d : ℕ)
    → Running g p
    → g.consecutive_sixes ≢ 2
    → d ≢ 6
    → target g p 6 + d ≤ 100
    → Returns
        (λ r. position_at r.0.players g.current_turn ≡ destination g (target g p 6 + d))
        (then_play (play_turn g 6) d)
six_then_plain {g} {p} d run few plain near =
    let run1 = counted-Running run few (omega arith) in
    let (r, e, rule) = by-Rule run1 d in
    rw (play_turn-again run few (omega arith), e) (returns (arrives rule))
  where
    run1 : Running (counted g) p
    run1 = counted-Running run few (omega arith)

    sum : target (counted g) p d ≡ target g p 6 + d
    sum = omega arith

    arrives :
        {r : Played}
        → Rule (counted g) p d r
        → position_at r.0.players g.current_turn ≡ destination g (target g p 6 + d)
    arrives (third_six six two) = absurd (plain six)
    arrives (overshot far few) = absurd (omega arith)
    arrives (again six few near) = absurd (plain six)
    arrives (moved _ _ _) = ground (
      arith,
      ap (destination g) sum,
      position_at-moved run1 (destination g (target (counted g) p d)) g.current_turn,
    )
    arrives (won _ _ _) = ground (
      arith,
      ap (destination g) sum,
      position_at-moved run1 (destination g (target (counted g) p d)) g.current_turn,
    )

-- In a well-formed game in progress whose player on turn has rolled fewer than two sixes, a six that
-- would bring the player, with an earlier six, exactly to square 100 does not: whatever is rolled
-- next, from 1 to 6, nobody has moved and the game goes on.
pub six_to_top_stays :
    {g : SnakeLadders} {p : Player} (d : ℕ)
    → Running g p
    → g.consecutive_sixes ≢ 2
    → target g p 6 ≡ 100
    → 0 < d
    → Returns
        (λ r. (r.0.players ≡ g.players) × (r.0.status ≡ game_in_progress))
        (then_play (play_turn g 6) d)
six_to_top_stays {g} {p} d run few top pos =
    let run1 = counted-Running run few (omega arith) in
    let (r, e, rule) = by-Rule run1 d in
    rw (play_turn-again run few (omega arith), e) (returns (stays rule))
  where
    stays :
        {r : Played}
        → Rule (counted g) p d r
        → (r.0.players ≡ g.players) × (r.0.status ≡ game_in_progress)
    stays (third_six six two) = (refl, run.status)
    stays (overshot far few') = (refl, run.status)
    stays (again six few' near) = absurd (omega arith)
    stays (moved plain near below) = absurd (omega arith)
    stays (won plain near at_top) = absurd (omega arith)
