-- ===== src/SnakeLadders/Rules.antt =====
-- The rules of one turn, as a relation, and PlayTurn of Snake_Ladders/main.go against them.
use low_level_design_in_go.Base.{
  ℕ, subst, ==_iff, ◌+◌, ◌*◌, ◌≤◌, ◌<◌, ◌≡◌, ◌≢◌, refl, not, false, none, some, List, arith, ◌==◌,
  ltb, if◌then◌else◌, length, get_or, set, if_cases, Bool-cases, inl, inr,
}
use low_level_design_in_go.Base.Run.{ok, index, index-get_or, assign-set}
use low_level_design_in_go.SnakeLadders.{
  SnakeLadders, Player, TurnResult, Played, game_in_progress, game_finished, three_sixes, Error,
  overshooting_six, overshooting, six_again, is_in_progress, next_turn, play_turn, play_six,
  play_move, follow,
}
use low_level_design_in_go.SnakeLadders.Invariant.{IsBoard}

-- Where a board's entry for square `p` leads; 0 stands for no entry.
abbrev pub jump : List ℕ → ℕ → ℕ
jump board p = if get_or board p 0 == 0 then p else get_or board p 0

-- Where a piece that lands on `p` ends: first the snake, then the ladder.
abbrev pub destination : SnakeLadders → ℕ → ℕ
destination g p = jump g.ladders (jump g.snakes p)

-- The square that a roll of `d` aims at: the sixes of this turn count.
abbrev pub target : SnakeLadders → Player → ℕ → ℕ
target g p d = 6 * g.consecutive_sixes + d + p.position

abbrev pub result_of : SnakeLadders → Player → ℕ → ℕ → TurnResult
result_of g p d to = record {
  player = g.current_turn;
  dice_roll = d;
  from_position = p.position;
  to_position = to;
}

-- The player's piece stays, and the turn goes to the next player.
abbrev pub passed : SnakeLadders → SnakeLadders
passed g = record g { consecutive_sixes = 0; current_turn = next_turn g }

abbrev pub moved_to : SnakeLadders → Player → ℕ → List Player
moved_to g p to = set g.players g.current_turn (record p { position = to })

-- The error of a roll beyond square 100: the source has two texts for it.
abbrev pub too_far : ℕ → Error
too_far d = if d == 6 then overshooting_six else overshooting

-- One turn of player `p`, who is on turn in `g`, with a roll of `d`.
pub data Rule (g : SnakeLadders) (p : Player) (d : ℕ) : Played → Type 0 where
  third_six :
      d ≡ 6
      → g.consecutive_sixes ≡ 2
      → Rule g p d (passed g, some (result_of g p d p.position), some three_sixes)
  overshot :
      100 < target g p d
      → (d ≡ 6 → g.consecutive_sixes ≢ 2)
      → Rule g p d (passed g, some (result_of g p d p.position), some (too_far d))
  again :
      d ≡ 6
      → g.consecutive_sixes ≢ 2
      → target g p d ≤ 100
      → Rule g p d (
        record g { consecutive_sixes = g.consecutive_sixes + 1 },
        some (result_of g p d p.position),
        some six_again,
      )
  moved :
      d ≢ 6
      → target g p d ≤ 100
      → destination g (target g p d) ≢ 100
      → Rule g p d (
        record (passed g) { players = moved_to g p (destination g (target g p d)) },
        some (result_of g p d (destination g (target g p d))),
        none,
      )
  won :
      d ≢ 6
      → target g p d ≤ 100
      → destination g (target g p d) ≡ 100
      → Rule g p d (
        record g {
          players = moved_to g p (destination g (target g p d));
          consecutive_sixes = 0;
          winner = some g.current_turn;
          status = game_finished;
        },
        some (result_of g p d (destination g (target g p d))),
        none,
      )

follow-jump : (board : List ℕ) (p : ℕ) → p < length board → follow board p ≡ ok (jump board p)
unfolding follow
follow-jump board p h = rw (index-get_or board p 0 h) (ground arith)

pub jump-snakes-le : {snakes ladders : List ℕ} (p : ℕ) → IsBoard snakes ladders → jump snakes p ≤ p
jump-snakes-le p b = ground (arith, b.snakes_down p)

pub jump-ladders-le :
    {snakes ladders : List ℕ} (p : ℕ) → IsBoard snakes ladders → p ≤ 100 → jump ladders p ≤ 100
jump-ladders-le p b h = ground (arith, b.ladders_up p)

play_six-Rule :
    (g : SnakeLadders) (p : Player) (d : ℕ)
    → d ≡ 6
    → Rule g p d (play_six g (result_of g p d p.position) (target g p d))
unfolding play_six
play_six-Rule g p d e =
    if_cases (Rule g p d) (g.consecutive_sixes == 2) (λ two. third_six e (ground arith))
      λ few.
        if_cases (Rule g p d) (ltb 100 (target g p d))
          (λ far.
            subst (λ x. Rule g p d (passed g, some (result_of g p d p.position), some x))
              (rw ((==_iff d 6).1 e) refl) (overshot (ground arith) (λ _. ground arith)))
          λ near. again e (ground arith) (ground arith)

module _ (g : SnakeLadders) (b : IsBoard g.snakes g.ladders)
    (seated : g.current_turn < length g.players) where
  lands :
      (p : Player) (d : ℕ)
      → d ≢ 6
      → target g p d ≤ 100
      → (r : Played) × (play_move g p (result_of g p d p.position) (target g p d) ≡ ok r)
        × Rule g p d r
  unfolding play_move
  lands p d plain near =
      let slid : jump g.snakes (target g p d) < length g.ladders =
        omega (arith, jump-snakes-le (target g p d) b, b.ladders_size) in
      let to = destination g (target g p d) in
      rw
        (
          far_off,
          follow-jump g.snakes (target g p d) (omega (arith, b.snakes_size)),
          follow-jump g.ladders (jump g.snakes (target g p d)) slid,
          assign-set g.players g.current_turn (record p { position = to }) seated,
        )
        (
          _,
          refl,
          if_cases (λ h. Rule g p d (h, some (result_of g p d to), none)) (to == 100)
              (λ top. won plain near (ground arith)) (λ below. moved plain near (ground arith)),
        )
    where
      far_off : ltb 100 (target g p d) ≡ false
      far_off = ground arith

  play_move-Rule :
      (p : Player) (d : ℕ)
      → d ≢ 6
      → (r : Played) × (play_move g p (result_of g p d p.position) (target g p d) ≡ ok r)
        × Rule g p d r
  unfolding play_move
  play_move-Rule p d plain = elim (Bool-cases (ltb 100 (target g p d))) [
    | inl far ↦ (
      _,
      rw far,
      subst (λ x. Rule g p d (passed g, some (result_of g p d p.position), some x))
          (if_cases (λ x. x ≡ overshooting) (d == 6) (λ six. absurd (plain ((==_iff d 6).0 six)))
            λ _. refl)
          (overshot (ground arith) (λ six. absurd (plain six))),
    )
    | inr near ↦ lands p d plain (ground arith)
  ]

  -- A turn in a running game never panics, and goes by the rules.
  pub play_turn-Rule :
      (p : Player) (d : ℕ)
      → g.status ≡ game_in_progress
      → index g.players g.current_turn ≡ ok p
      → (r : Played) × (play_turn g d ≡ ok r) × Rule g p d r
  unfolding play_turn
  play_turn-Rule p d running e =
      let open_ : not (is_in_progress g.status) ≡ false = rw running in
      rw (open_, e)
        (elim (Bool-cases (d == 6)) [
          | inl six ↦ rw six (_, refl, play_six-Rule g p d (ground arith))
          | inr plain ↦ rw plain (play_move-Rule p d (ground arith))
        ])
