-- ===== src/ConnectionPool/Closing.antt =====
-- The loop of `Shutdown` in Connection Pool/main.go.
use low_level_design_in_go.Base.{
  ℕ, zero, suc, ◌≡◌, refl, ap, false, not, ◌&&◌, ◌||◌, Option, none, some, List, [], ◌∷◌, ◌==◌,
  ==_iff, length, has, has-delete, get_elem?, get_elem?-set_self, inside-at, nothing_left, one_left,
  arith,
}
use low_level_design_in_go.Base.Run.{ok, Returns, returns, Returns-map}
use low_level_design_in_go.ConnectionPool.{eq_address, discard}
use low_level_design_in_go.ConnectionPool.Steps.{
  Closer, draining, drained, finished, System, set_closer, Step, drains, discards, drain,
  discard_drained, take_step, take_steps,
}

-- Two steps for every connection in the channel, and one for the end.
abbrev pub turns : ℕ → ℕ → List Step
turns i zero = drains i ∷ []
turns i (suc n) = drains i ∷ discards i ∷ turns i n

-- What the loop leaves: it has ended, the channel is empty, and the connections that were in it are
-- not the pool's any more; the others are.
pub record Emptied (s : System) (i : ℕ) (s' : System) : Type 0 where
  pub ended : get_elem? s'.closers i ≡ some finished
  pub emptied : s'.pool.idle_conns ≡ []
  pub kept :
      (a : ℕ)
      → has a s'.pool.connections ≡ (has a s.pool.connections && not (has a s.pool.idle_conns))

at_place :
    (s : System) (o : Option Closer) (act : Closer → System) (x : Closer)
    → o ≡ some x
    → elim o [ none ↦ ok s | some y ↦ ok (act y) ] ≡ ok (act x)
at_place s o act x e = rw e refl

drain_turn :
    (s : System) (i : ℕ) (x : Closer)
    → get_elem? s.closers i ≡ some x
    → take_step s (drains i) ≡ ok (drain s i x)
unfolding take_step
drain_turn s i x at = at_place s (get_elem? s.closers i) (drain s i) x at

discard_turn :
    (s : System) (i : ℕ) (x : Closer)
    → get_elem? s.closers i ≡ some x
    → take_step s (discards i) ≡ ok (discard_drained s i x)
unfolding take_step
discard_turn s i x at = at_place s (get_elem? s.closers i) (discard_drained s i) x at

split :
    {X : Type 0} (ids ids' : List ℕ) (x : X) (f : ℕ → List ℕ → X)
    → ids ≡ ids'
    → elim ids [ [] ↦ x | a ∷ rest ↦ f a rest ] ≡ elim ids' [ [] ↦ x | a ∷ rest ↦ f a rest ]
split ids ids' x f e = ap (λ l. elim l [ [] ↦ x | a ∷ rest ↦ f a rest ]) e

-- The system after a receive of the loop.
abbrev received : System → ℕ → ℕ → List ℕ → System
received s i a rest =
    set_closer (record s { pool = record s.pool { idle_conns = rest } }) i (drained a)

drain-empty :
    (s : System) (i : ℕ) → s.pool.idle_conns ≡ [] → drain s i draining ≡ set_closer s i finished
unfolding drain
drain-empty s i e = split s.pool.idle_conns [] (set_closer s i finished) (received s i) e

drain-first :
    (s : System) (i a : ℕ) (rest : List ℕ)
    → s.pool.idle_conns ≡ a ∷ rest
    → drain s i draining ≡ received s i a rest
unfolding drain
drain-first s i a rest e =
    split s.pool.idle_conns (a ∷ rest) (set_closer s i finished) (received s i) e

has-cons : (b a : ℕ) (xs : List ℕ) → has b (a ∷ xs) ≡ (b == a || has b xs)
unfolding has
has-cons b a xs = refl

has-nil : (b : ℕ) → has b [] ≡ false
unfolding has
has-nil b = refl

-- The loop of Shutdown, when nothing comes between, ends after two steps for every connection in the
-- channel and one more: the channel is then empty, the connections that were in it have left the
-- pool, and all others are still the pool's.
pub turns-Emptied :
    (n : ℕ) (s : System) (i : ℕ)
    → get_elem? s.closers i ≡ some draining
    → length s.pool.idle_conns ≡ n
    → Returns (Emptied s i) (take_steps s (turns i n))
unfolding take_steps discard_drained discard
turns-Emptied zero s i at size =
    let e = nothing_left s.pool.idle_conns size in
    rw (drain_turn s i draining at, drain-empty s i e)
      (returns (record {
        ended = get_elem?-set_self s.closers i finished (inside-at s.closers i draining at);
        emptied = e;
        kept = λ a. ground (arith, ap (has a) e, has-nil a);
      }))
turns-Emptied (suc n) s i at size =
    let (a, rest, e, size') = one_left s.pool.idle_conns n size in
    let s1 = received s i a rest in
    let at1 : get_elem? s1.closers i ≡ some (drained a) =
      get_elem?-set_self s.closers i (drained a) (inside-at s.closers i draining at) in
    let s2 = discard_drained s1 i (drained a) in
    let at2 : get_elem? s2.closers i ≡ some draining =
      get_elem?-set_self s1.closers i draining (inside-at s1.closers i (drained a) at1) in
    rw (drain_turn s i draining at, drain-first s i a rest e, discard_turn s1 i (drained a) at1)
      (Returns-map (turns-Emptied n s2 i at2 size') λ s' k. record {
        ended = k.ended;
        emptied = k.emptied;
        kept = λ b. ground (
          arith,
          k.kept b,
          ap (has b) e,
          has-cons b a rest,
          has-delete a b s.pool.connections,
          ==_iff a b,
          ==_iff b a,
        );
      })
