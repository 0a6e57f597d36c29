-- ===== src/SnakeLadders/Setup.antt =====
-- AddPlayer, AddSnake, AddLadder and Start of Snake_Ladders/main.go keep a game well formed.
use low_level_design_in_go.Base.{
  ℕ, ◌≤◌, ◌<◌, ◌≡◌, ◌≢◌, refl, subst, ◌∙◌, String, false, not, ◌||◌, Option, none, some, List, [],
  ◌∷◌, ◌++◌, arith, ◌==◌, ltb, length, get_or, set, length-set, get_or-set, if_cases, subst⁻¹,
}
use low_level_design_in_go.Base.Int.{ℤ, pos, pos_part, ltb_ℤ}
use low_level_design_in_go.Base.Run.{ok, index, Returns, returns, Returns-if, index-get_or}
use low_level_design_in_go.SnakeLadders.{
  SnakeLadders, Player, GameStatus, Error, game_not_started, game_in_progress, game_finished,
  add_player, add_snake, add_ladder, start, leb_ℤ, is_not_started,
}
use low_level_design_in_go.SnakeLadders.Invariant.{
  IsBoard, IsValid, Phase, snake_at, ladder_at, position_at-append,
}

-- A setter's outcome: a well-formed game, which is the old one if there is an error.
pub record Kept (g : SnakeLadders) (r : SnakeLadders × Option Error) : Type 0 where
  pub valid : IsValid r.0
  pub unchanged : r.1 ≢ none → r.0 ≡ g

refused-Kept : {g : SnakeLadders} (e : Error) → IsValid g → Kept g (g, some e)
refused-Kept e v = record { valid = v; unchanged = λ _. refl }

-- The guard of AddSnake lets through a head on squares 2 to 99 and a tail below it.
snake_guard :
    (head tail : ℤ)
    → (leb_ℤ head (pos 0) || leb_ℤ (pos 100) head || leb_ℤ tail (pos 0) || leb_ℤ head tail) ≡ false
    → (pos_part head < 100) × (0 < pos_part tail) × (pos_part tail < pos_part head)
snake_guard head tail h = ground arith

ladder_guard :
    (start end : ℤ)
    → (leb_ℤ start (pos 0) || leb_ℤ (pos 100) start || leb_ℤ end start || ltb_ℤ (pos 100) end)
      ≡ false
    → (0 < pos_part start) × (pos_part start < pos_part end) × (pos_part end ≤ 100)
ladder_guard start end h = ground arith

module _ {snakes ladders : List ℕ} (b : IsBoard snakes ladders) (at to : ℕ)
    (inside : at < 100) where
  write_snake : to < at → get_or ladders at 0 ≡ 0 → IsBoard (set snakes at to) ladders
  write_snake down free =
      let got = λ (i : ℕ). get_or-set snakes at i to 0 (omega (arith, b.snakes_size)) in
      record {
        snakes_size = length-set snakes at to ∙ b.snakes_size;
        ladders_size = b.ladders_size;
        snakes_down = λ i h. ground (arith, got i, b.snakes_down i);
        ladders_up = b.ladders_up;
        apart = λ i. ground (arith, got i, b.apart i);
      }

  write_ladder :
      0 < at → at < to → to ≤ 100 → get_or snakes at 0 ≡ 0 → IsBoard snakes (set ladders at to)
  write_ladder away up top free =
      let got = λ (i : ℕ). get_or-set ladders at i to 0 (omega (arith, b.ladders_size)) in
      record {
        snakes_size = b.snakes_size;
        ladders_size = length-set ladders at to ∙ b.ladders_size;
        snakes_down = b.snakes_down;
        ladders_up = λ i h. ground (arith, got i, b.ladders_up i);
        apart = λ i. ground (arith, got i, b.apart i);
      }

  load_snake : index snakes at ≡ ok (get_or snakes at 0)
  load_snake = index-get_or snakes at 0 (omega (arith, b.snakes_size))

  load_ladder : index ladders at ≡ ok (get_or ladders at 0)
  load_ladder = index-get_or ladders at 0 (omega (arith, b.ladders_size))

-- A setter that succeeds on a well-formed game, whose new game is in the same phase.
done-Kept :
    {g h : SnakeLadders}
    → IsBoard h.snakes h.ladders
    → h.consecutive_sixes ≤ 2
    → Phase h.status h
    → Kept g (h, none)
done-Kept b s p = record {
  valid = record { board = b; sixes = s; phase = p };
  unchanged = λ n. absurd (n refl);
}

-- Writing a board keeps what holds of the players.
same-Phase :
    (s : GameStatus) (g : SnakeLadders) (snakes ladders : List ℕ)
    → Phase s g
    → Phase s (record g { snakes = snakes; ladders = ladders })
same-Phase game_not_started g snakes ladders p = p
same-Phase game_in_progress g snakes ladders p = p
same-Phase game_finished g snakes ladders p = p

-- On a well-formed game AddSnake never panics, whatever its arguments; it keeps the game well
-- formed, and changes nothing when it returns an error.
pub add_snake-Kept :
    (g : SnakeLadders) (head tail : ℤ) → IsValid g → Returns (Kept g) (add_snake g head tail)
unfolding add_snake
add_snake-Kept g head tail v =
    Returns-if (not (is_not_started g.status)) (λ _. returns (refused-Kept _ v))
      λ _.
        Returns-if _ (λ _. returns (refused-Kept _ v))
          λ checked.
            let (inside, _, down) = snake_guard head tail checked in
            let at = pos_part head in
            let to = pos_part tail in
            rw (load_snake v.board at to inside, load_ladder v.board at to inside)
              (Returns-if (not (snake_at g at == 0)) (λ _. returns (refused-Kept _ v))
                λ _.
                  Returns-if (not (ladder_at g at == 0)) (λ _. returns (refused-Kept _ v))
                    λ free. returns (
                      done-Kept (write_snake v.board at to inside down (ground arith)) v.sixes
                        (same-Phase g.status g _ g.ladders v.phase)))

-- On a well-formed game AddLadder never panics, whatever its arguments; it keeps the game well
-- formed, and changes nothing when it returns an error.
pub add_ladder-Kept :
    (g : SnakeLadders) (start end : ℤ) → IsValid g → Returns (Kept g) (add_ladder g start end)
unfolding add_ladder
add_ladder-Kept g start end v =
    Returns-if (not (is_not_started g.status)) (λ _. returns (refused-Kept _ v))
      λ _.
        Returns-if _ (λ _. returns (refused-Kept _ v))
          λ checked.
            let (away, up, top) = ladder_guard start end checked in
            let at = pos_part start in
            let to = pos_part end in
            let inside : at < 100 = omega arith in
            rw (load_ladder v.board at to inside, load_snake v.board at to inside)
              (Returns-if (not (ladder_at g at == 0)) (λ _. returns (refused-Kept _ v))
                λ _.
                  Returns-if (not (snake_at g at == 0)) (λ _. returns (refused-Kept _ v))
                    λ free. returns (
                      done-Kept (write_ladder v.board at to inside away up top (ground arith))
                        v.sixes (same-Phase g.status g g.snakes _ v.phase)))

not_started_of_guard : (s : GameStatus) → not (is_not_started s) ≡ false → s ≡ game_not_started
not_started_of_guard s h = ground arith

-- AddPlayer keeps the game well formed, and changes nothing when it returns an error.
pub add_player-Kept :
    (g : SnakeLadders) (id name : String) → IsValid g → Kept g (add_player g id name)
unfolding add_player
add_player-Kept g id name v =
    if_cases (Kept g) (not (is_not_started g.status)) (λ _. refused-Kept _ v)
      λ open_.
        let e = not_started_of_guard g.status open_ in
        let (turn, winner, sixes, home) = subst (λ s. Phase s g) e v.phase in
        done-Kept v.board v.sixes (
          subst⁻¹ (λ s. Phase s h) e
            (turn, winner, sixes, λ i. position_at-append g.players p i refl home))
  where
    p : Player
    p = record { id = id; name = name; position = 0 }

    h : SnakeLadders
    h = record g { players = g.players ++ p ∷ [] }

-- Start keeps the game well formed, and changes nothing when it returns an error.
pub start-Kept : (g : SnakeLadders) → IsValid g → Kept g (start g)
unfolding start
start-Kept g v =
    if_cases (Kept g) (not (is_not_started g.status)) (λ _. refused-Kept _ v)
      λ open_.
        if_cases (Kept g) (ltb (length g.players) 2) (λ _. refused-Kept _ v)
          λ many.
            let e = not_started_of_guard g.status open_ in
            let (turn, winner, sixes, home) = subst (λ s. Phase s g) e v.phase in
            done-Kept v.board v.sixes
              (ground arith, winner, ground arith, λ i. omega (arith, home i))
