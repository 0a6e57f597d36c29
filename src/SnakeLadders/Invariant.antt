-- ===== src/SnakeLadders/Invariant.antt =====
-- Well-formed games: the invariant of SnakeLadders in Snake_Ladders/main.go.
use low_level_design_in_go.Base.{
  ℕ, zero, suc, ◌≤◌, ◌<◌, ◌≡◌, ◌≢◌, refl, ◌⊎◌, none, some, List, [], ◌∷◌, ◌++◌, arith, ◌==◌,
  if◌then◌else◌, length, get_or, set, inl, get_or-replicate, length-replicate,
}
use low_level_design_in_go.SnakeLadders.{
  SnakeLadders, Player, GameStatus, game_not_started, game_in_progress, game_finished,
  new_snakes_ladders,
}

abbrev pub snake_at : SnakeLadders → ℕ → ℕ
snake_at g i = get_or g.snakes i 0

abbrev pub ladder_at : SnakeLadders → ℕ → ℕ
ladder_at g i = get_or g.ladders i 0

-- The square of player `i`.
abbrev pub position_at : List Player → ℕ → ℕ
position_at [] i = 0
position_at (p ∷ ps) zero = p.position
position_at (p ∷ ps) (suc i) = position_at ps i

-- Snakes lead down, ladders lead up, both within the board, and no square starts both.
pub record IsBoard (snakes ladders : List ℕ) : Type 0 where
  pub snakes_size : length snakes ≡ 101
  pub ladders_size : length ladders ≡ 101
  pub snakes_down : (i : ℕ) → get_or snakes i 0 ≢ 0 → (i < 100) × (get_or snakes i 0 < i)
  pub ladders_up :
      (i : ℕ)
      → get_or ladders i 0 ≢ 0
      → (0 < i) × (i < get_or ladders i 0) × (get_or ladders i 0 ≤ 100)
  pub apart : (i : ℕ) → (get_or snakes i 0 ≡ 0) ⊎ (get_or ladders i 0 ≡ 0)

-- What holds of the players and the turn in each status.
abbrev pub Phase : GameStatus → SnakeLadders → Type 0
Phase game_not_started g =
    (g.current_turn ≡ 0)
    × (g.winner ≡ none)
    × (g.consecutive_sixes ≡ 0)
    × ((i : ℕ) → position_at g.players i ≡ 0)
Phase game_in_progress g =
    (g.current_turn < length g.players)
    × (g.winner ≡ none)
    × (2 ≤ length g.players)
    × ((i : ℕ) → position_at g.players i < 100)
Phase game_finished g =
    (g.current_turn < length g.players)
    × (g.winner ≡ some g.current_turn)
    × (position_at g.players g.current_turn ≡ 100)
    × ((i : ℕ) → i ≢ g.current_turn → position_at g.players i < 100)

pub record IsValid (g : SnakeLadders) : Type 0 where
  pub board : IsBoard g.snakes g.ladders
  pub sixes : g.consecutive_sixes ≤ 2
  pub phase : Phase g.status g

pub position_at-set :
    (ps : List Player) (i j : ℕ) (p : Player)
    → i < length ps
    → position_at (set ps i p) j ≡ (if i == j then p.position else position_at ps j)
position_at-set [] i j p h = elim h [ ]
position_at-set (q ∷ ps) zero zero p h = refl
position_at-set (q ∷ ps) zero (suc j) p h = ground arith
position_at-set (q ∷ ps) (suc i) zero p h = ground arith
position_at-set (q ∷ ps) (suc i) (suc j) p h =
    ground (arith, position_at-set ps i j p (omega arith))

pub position_at-append :
    (ps : List Player) (p : Player) (i : ℕ)
    → p.position ≡ 0
    → ((j : ℕ) → position_at ps j ≡ 0)
    → position_at (ps ++ p ∷ []) i ≡ 0
position_at-append [] p zero e h = e
position_at-append [] p (suc i) e h = refl
position_at-append (q ∷ ps) p zero e h = h 0
position_at-append (q ∷ ps) p (suc i) e h = position_at-append ps p i e (λ j. h (suc j))

-- A new game is well formed.
pub new-IsValid : IsValid new_snakes_ladders
unfolding new_snakes_ladders
new-IsValid = record {
  board = record {
    snakes_size = length-replicate 101 zero;
    ladders_size = length-replicate 101 zero;
    snakes_down = λ i h. absurd (h (get_or-replicate 101 i 0));
    ladders_up = λ i h. absurd (h (get_or-replicate 101 i 0));
    apart = λ i. inl (get_or-replicate 101 i 0);
  };
  sixes = omega arith;
  phase = (refl, refl, refl, λ i. refl);
}
