-- ===== src/SnakeLadders/Turns.antt =====
-- PlayTurn of Snake_Ladders/main.go: well-formed games, who moves, who wins, and runs of sixes.
use low_level_design_in_go.Base.{
  ℕ, zero, suc, ◌≤◌, ◌<◌, ◌≡◌, ◌≢◌, refl, sym, ap, subst, subst⁻¹, ◌∙◌, ◌↔◌, not, none, some, true,
  false, List, [], ◌∷◌, arith, ◌==◌, if◌then◌else◌, length, Bool-cases, inl, inr, length-set,
}
use low_level_design_in_go.Base.Run.{ok, index, Returns, returns, index-total}
use low_level_design_in_go.SnakeLadders.{
  SnakeLadders, Player, TurnResult, GameStatus, Error, Played, game_in_progress, game_finished,
  game_status, is_in_progress, next_turn, play_turn,
}
use low_level_design_in_go.SnakeLadders.Invariant.{IsValid, Phase, position_at, position_at-set}
use low_level_design_in_go.SnakeLadders.Rules.{
  Rule, third_six, overshot, again, moved, won, destination, target, moved_to, result_of,
  play_turn-Rule, jump, jump-snakes-le, jump-ladders-le,
}

in_progress_of_test : (s : GameStatus) → is_in_progress s ≡ true → s ≡ game_in_progress
in_progress_of_test s h = ground arith

-- PlayTurn refuses a game that is not running, and leaves it alone.
pub play_turn-refused :
    (g : SnakeLadders) (d : ℕ)
    → is_in_progress g.status ≡ false
    → play_turn g d ≡ ok (g, none, some (game_status g.status))
unfolding play_turn
play_turn-refused g d idle = rw (idle, not)

-- The facts about a running game that every turn uses.
pub record Running (g : SnakeLadders) (p : Player) : Type 0 where
  pub valid : IsValid g
  pub status : g.status ≡ game_in_progress
  pub on_turn : index g.players g.current_turn ≡ ok p

position_at-index :
    (ps : List Player) (i : ℕ) (p : Player)
    → index ps i ≡ ok p
    → (i < length ps) × (position_at ps i ≡ p.position)
position_at-index [] i p e = cc
position_at-index (q ∷ ps) zero p e = (omega arith, cc)
position_at-index (q ∷ ps) (suc i) p e = let (h, f) = position_at-index ps i p e in (omega arith, f)

module _ {g : SnakeLadders} {p : Player} (run : Running g p) where
  pub phase : Phase game_in_progress g
  phase = subst (λ s. Phase s g) run.status run.valid.phase

  seated : g.current_turn < length g.players
  seated = phase.0

  pub by-Rule : (d : ℕ) → (r : Played) × (play_turn g d ≡ ok r) × Rule g p d r
  by-Rule d = play_turn-Rule g run.valid.board seated p d run.status run.on_turn

  pub position_at-moved :
      (to j : ℕ)
      → position_at (moved_to g p to) j
        ≡ (if g.current_turn == j then to else position_at g.players j)
  position_at-moved to j = position_at-set g.players g.current_turn j _ seated

  destination-le : (q : ℕ) → q ≤ 100 → destination g q ≤ 100
  destination-le q h =
      jump-ladders-le (jump g.snakes q) run.valid.board
        (omega (arith, jump-snakes-le q run.valid.board))

  in-Phase : (h : SnakeLadders) → h.status ≡ g.status → Phase game_in_progress h → Phase h.status h
  in-Phase h e q = subst⁻¹ (λ s. Phase s h) (e ∙ run.status) q

  next-lt : next_turn g < length g.players
  next-lt = let (_, _, two, _) = phase in omega arith

  pub Rule-IsValid : {d : ℕ} {r : Played} → Rule g p d r → IsValid r.0
  Rule-IsValid (third_six six two) = record {
    board = run.valid.board;
    sixes = omega arith;
    phase = in-Phase _ refl (next-lt, phase.1, phase.2, phase.3);
  }
  Rule-IsValid (overshot far few) = record {
    board = run.valid.board;
    sixes = omega arith;
    phase = in-Phase _ refl (next-lt, phase.1, phase.2, phase.3);
  }
  Rule-IsValid (again six few near) = record {
    board = run.valid.board;
    sixes = omega (arith, run.valid.sixes);
    phase = in-Phase _ refl phase;
  }
  Rule-IsValid {d} (moved plain near below) =
      let to = destination g (target g p d) in
      let size = length-set g.players g.current_turn (record p { position = to }) in
      record {
        board = run.valid.board;
        sixes = omega arith;
        phase = in-Phase _ refl (
          omega (arith, size, next-lt),
          phase.1,
          omega (arith, size, phase.2),
          λ i. ground (arith, position_at-moved to i, phase.3 i, destination-le (target g p d)),
        );
      }
  Rule-IsValid {d} (won plain near top) =
      let to = destination g (target g p d) in
      let size = length-set g.players g.current_turn (record p { position = to }) in
      record {
        board = run.valid.board;
        sixes = omega arith;
        phase = (
          omega (arith, size, phase.0),
          refl,
          ground (arith, position_at-moved to g.current_turn),
          λ i h. ground (arith, position_at-moved to i, phase.3 i),
        );
      }

running-ne-finished : game_in_progress ≢ game_finished
running-ne-finished e = cc

-- What a turn of a running game does, on every branch: the board and the other players stay, the
-- result reports the square of the player on turn, and the game ends exactly when that is 100.
pub record Turned (g : SnakeLadders) (d : ℕ) (r : Played) : Type 0 where
  pub board : (r.0.snakes ≡ g.snakes) × (r.0.ladders ≡ g.ladders)
  pub others : (j : ℕ) → j ≢ g.current_turn → position_at r.0.players j ≡ position_at g.players j
  pub reported :
      (t : TurnResult) × (r.1 ≡ some t)
      × (t.player ≡ g.current_turn)
      × (t.dice_roll ≡ d)
      × (t.from_position ≡ position_at g.players g.current_turn)
      × (t.to_position ≡ position_at r.0.players g.current_turn)
  pub held : r.2 ≢ none → r.0.players ≡ g.players
  pub ended : (r.0.status ≡ game_finished) ↔ (position_at r.0.players g.current_turn ≡ 100)

module _ {g : SnakeLadders} {p : Player} (run : Running g p) where
  -- A turn after which nobody has moved.
  still :
      (d : ℕ) (h : SnakeLadders) (e : Error)
      → (h.players ≡ g.players) × (h.snakes ≡ g.snakes) × (h.ladders ≡ g.ladders)
      → h.status ≡ g.status
      → Turned g d (h, some (result_of g p d p.position), some e)
  still d h e (ps, ss, ls) st =
      let (_, at) = position_at-index g.players g.current_turn p run.on_turn in
      let below = (phase run).3 g.current_turn in
      record {
        board = (ss, ls);
        others = λ j _. rw ps refl;
        reported =
            (_, refl, refl, refl, sym at, sym (ap (λ qs. position_at qs g.current_turn) ps ∙ at));
        held = λ _. ps;
        ended = (
          λ f. absurd (running-ne-finished (sym run.status ∙ sym st ∙ f)),
          λ f. absurd (omega (arith, below, ap (λ qs. position_at qs g.current_turn) ps)),
        );
      }

  Rule-Turned : {d : ℕ} {r : Played} → Rule g p d r → Turned g d r
  Rule-Turned {d} (third_six six two) = still d _ _ (refl, refl, refl) refl
  Rule-Turned {d} (overshot far few) = still d _ _ (refl, refl, refl) refl
  Rule-Turned {d} (again six few near) = still d _ _ (refl, refl, refl) refl
  Rule-Turned {d} (moved plain near below) =
      let to = destination g (target g p d) in
      let (_, at) = position_at-index g.players g.current_turn p run.on_turn in
      let there = position_at-moved run to g.current_turn in
      record {
        board = (refl, refl);
        others = λ j n. ground (arith, position_at-moved run to j);
        reported = (_, refl, refl, refl, sym at, ground (arith, there));
        held = λ n. absurd (n refl);
        ended = (
          λ f. absurd (running-ne-finished (sym run.status ∙ f)),
          λ f. absurd (below (ground (arith, there))),
        );
      }
  Rule-Turned {d} (won plain near top) =
      let to = destination g (target g p d) in
      let (_, at) = position_at-index g.players g.current_turn p run.on_turn in
      let there = position_at-moved run to g.current_turn in
      record {
        board = (refl, refl);
        others = λ j n. ground (arith, position_at-moved run to j);
        reported = (_, refl, refl, refl, sym at, ground (arith, there));
        held = λ n. absurd (n refl);
        ended = (λ _. ground (arith, there), λ _. refl);
      }

  -- PlayTurn returns on a well-formed game in progress. The board stays, only the player on turn may
  -- move, the result tells the player, the roll and the squares before and after, a turn with an
  -- error moves nobody, and the game is finished exactly if the player stands on square 100.
  pub play_turn-Turned : (d : ℕ) → Returns (Turned g d) (play_turn g d)
  play_turn-Turned d = let (r, e, rule) = by-Rule run d in rw e (returns (Rule-Turned rule))

-- PlayTurn never panics on a well-formed game, and keeps it well formed, whatever the roll.
pub play_turn-IsValid :
    (g : SnakeLadders) (d : ℕ) → IsValid g → Returns (λ r. IsValid r.0) (play_turn g d)
play_turn-IsValid g d v = elim (Bool-cases (is_in_progress g.status)) [
  | inr idle ↦ rw (play_turn-refused g d idle) (returns v)
  | inl active ↦
      let e = in_progress_of_test g.status active in
      let inside = (subst (λ s. Phase s g) e v.phase).0 in
      let (p, at, _) = index-total g.players g.current_turn inside in
      let run : Running g p = record { valid = v; status = e; on_turn = at } in
      let (r, done, rule) = by-Rule run d in rw done (returns (Rule-IsValid run rule))
]
