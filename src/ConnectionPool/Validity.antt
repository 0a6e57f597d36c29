-- ===== src/ConnectionPool/Validity.antt =====
-- What holds of the pool of Connection Pool/main.go between any two critical sections.
use low_level_design_in_go.Base.{
  ℕ, suc, ◌+◌, ◌-◌, ◌≤◌, ◌<◌, ◌≡◌, ◌≢◌, refl, sym, ap, subst, ◌∙◌, String, Bool, true, false, not,
  ◌&&◌, ◌||◌, if_cases, Option, none, some, List, ◌∷◌, ◌==◌, ==_iff, length, has, insert, delete,
  Distinct, has-delete, delete-Distinct, sum_by, if◌then◌else◌, arith, Bool-cases, inl, inr,
}
use low_level_design_in_go.Base.Int.{ℤ, pos, negsuc, ltb_ℤ, ◌+ℤ◌, ◌-ℤ◌}
use low_level_design_in_go.ConnectionPool.{
  in_use, Connection, Pool, eq_address, is_in_use, write, set_status, discard, create, healthy,
}
use low_level_design_in_go.ConnectionPool.Sums.{
  length-delete, sum_by-delete, sum_by-change, sum_by-except,
}

-- 1 for the address itself.
abbrev pub same : ℕ → ℕ → ℕ
same a b = if a == b then 1 else 0

-- The most connections that the maximum allows.
abbrev pub cap : ℤ → ℕ
cap (pos n) = n
cap (negsuc n) = 0

abbrev pub lent_at : (ℕ → Connection) → ℕ → ℕ
lent_at m a = if is_in_use (m a).status then 1 else 0

-- 1 for a connection of the pool that a caller has.
abbrev pub lent : Pool → ℕ → ℕ
lent p a = if has a p.connections then lent_at p.memory a else 0

abbrev pub present : Pool → ℕ → ℕ
present p a = if has a p.connections then 1 else 0

-- A pool whose connections that no caller has are counted by `loose`.
pub record IsSound (p : Pool) (loose : ℕ → ℕ) : Type 0 where
  pub distinct : Distinct p.connections
  pub total : p.total_connections ≡ pos (length p.connections)
  pub capped : length p.connections ≤ cap p.max_connections
  pub fresh : (a : ℕ) → has a p.connections ≡ true → a < p.next
  pub placed : (a : ℕ) → loose a + lent p a ≡ present p a
  pub counted : p.wg ≡ sum_by (lent_at p.memory) p.connections

pub reweigh :
    {p : Pool} {loose loose' : ℕ → ℕ}
    → ((a : ℕ) → loose' a ≡ loose a)
    → IsSound p loose
    → IsSound p loose'
reweigh e v = record {
  distinct = v.distinct;
  total = v.total;
  capped = v.capped;
  fresh = v.fresh;
  placed = λ a. omega (arith, e a, v.placed a);
  counted = v.counted;
}

minus_one : (n : ℕ) (z : ℤ) → z ≡ pos (suc n) → z -ℤ pos 1 ≡ pos n
unfolding ◌-ℤ◌
minus_one n z e = rw e (ground arith)

plus_one : (n : ℕ) (z : ℤ) → z ≡ pos n → z +ℤ pos 1 ≡ pos (suc n)
unfolding ◌+ℤ◌
plus_one n z e = rw e (ground arith)

has-cons : (b a : ℕ) (xs : List ℕ) → has b (a ∷ xs) ≡ (b == a || has b xs)
unfolding has
has-cons b a xs = refl

inserted : (a : ℕ) (xs : List ℕ) → has a xs ≡ false → insert a xs ≡ a ∷ xs
unfolding insert
inserted a xs e = rw e refl

left_of : {a : Bool} (b : Bool) → (a && b) ≡ true → a ≡ true
left_of b e = ground (arith, e)

below_cap : (n : ℕ) (z : ℤ) → ltb_ℤ (pos n) z ≡ true → n < cap z
below_cap n (pos m) e = ground (arith, e)
below_cap n (negsuc m) e = ground (arith, e)

-- A loose connection is one of the pool, and no caller has it.
pub loose-Held :
    {p : Pool} {loose : ℕ → ℕ} (a : ℕ)
    → IsSound p loose
    → 0 < loose a
    → (has a p.connections ≡ true) × (lent_at p.memory a ≡ 0) × (loose a ≡ 1)
loose-Held {p} {loose} a v some_loose = ground (arith, v.placed a, some_loose)

==-ne : {a b : ℕ} → (a == b) ≡ false → a ≢ b
==-ne e is = ground (arith, e, is)

module _ (p : Pool) (loose loose' : ℕ → ℕ) (a : ℕ) (v : IsSound p loose) where
  -- A connection is no longer loose: a caller gets it.
  pub lend-IsSound :
      ((b : ℕ) → loose' b + same b a ≡ loose b)
      → IsSound (record (set_status p a in_use) { wg = suc p.wg }) loose'
  unfolding write
  lend-IsSound less =
      let held = loose-Held a v (ground (arith, less a)) in
      let m' = write p.memory a (record (p.memory a) { status = in_use }) in
      let others : (b : ℕ) → a ≢ b → lent_at m' b ≡ lent_at p.memory b =
        λ b apart. ground (arith, apart) in
      let p' : Pool = record (set_status p a in_use) { wg = suc p.wg } in
      let own : lent_at m' a ≡ 1 = ground (arith, ==_iff a a) in
      record {
        distinct = v.distinct;
        total = v.total;
        capped = v.capped;
        fresh = v.fresh;
        placed = λ b. elim (Bool-cases (a == b)) [
          | inl is ↦
              let at_a : loose' a + lent p' a ≡ present p' a = ground (arith, less a, held, own) in
              subst (λ c. loose' c + lent p' c ≡ present p' c) ((==_iff a b).0 is) at_a
          | inr apart ↦
              let unlike : a ≢ b = λ i. ==-ne apart i in
              let weight : loose' b ≡ loose b = ground (arith, less b, apart) in
              rw (others b unlike, weight) (v.placed b)
        ];
        counted = omega (
          arith,
          v.counted,
          sum_by-change (lent_at p.memory) (lent_at m') a p.connections others v.distinct held.0,
          own,
          held.1,
        );
      }

  -- A connection is no longer loose: it leaves the pool.
  pub discard-IsSound : ((b : ℕ) → loose' b + same b a ≡ loose b) → IsSound (discard p a) loose'
  unfolding discard
  discard-IsSound less =
      let held = loose-Held a v (ground (arith, less a)) in
      let shorter = length-delete a p.connections v.distinct held.0 in
      record {
        distinct = delete-Distinct a p.connections v.distinct;
        total =
            minus_one (length (delete a p.connections)) p.total_connections
              (v.total ∙ ap pos (sym shorter));
        capped = omega (arith, v.capped, shorter);
        fresh = λ b m. v.fresh b (ground (arith, m, has-delete a b p.connections));
        placed = λ b. ground (arith, less b, v.placed b, has-delete a b p.connections, held);
        counted = omega (
          arith,
          v.counted,
          sum_by-delete (lent_at p.memory) a p.connections v.distinct held.0,
          held.1,
        );
      }

module _ (p : Pool) (loose : ℕ → ℕ) (v : IsSound p loose) where
  -- A new connection goes to a caller at once.
  pub create-IsSound : (id : String) (now : ℕ) → IsSound (create p id now).0 loose
  unfolding create write
  create-IsSound id now =
      let conns = p.connections in
      let conn : Connection = record {
        id = id;
        health = healthy;
        status = in_use;
        last_used = now;
      } in
      let m' = write p.memory p.next conn in
      let absent : has p.next conns ≡ false = elim (Bool-cases (has p.next conns)) [
        | inl there ↦ absurd (omega (arith, v.fresh p.next there))
        | inr gone ↦ gone
      ] in
      let others : (b : ℕ) → p.next ≢ b → lent_at m' b ≡ lent_at p.memory b =
        λ b apart. ground (arith, apart) in
      let own : lent_at m' p.next ≡ 1 = ground (arith, ==_iff p.next p.next) in
      let loose_new : loose p.next ≡ 0 = ground (arith, absent, v.placed p.next) in
      let p' : Pool = record p {
        memory = m';
        next = suc p.next;
        total_connections = p.total_connections +ℤ pos 1;
        wg = suc p.wg;
        connections = p.next ∷ conns;
      } in
      let sound : length conns < cap p.max_connections → IsSound p' loose = λ room. record {
        distinct = (absent, v.distinct);
        total = plus_one (length conns) p.total_connections v.total;
        capped = omega (arith, room);
        fresh = λ b there. ground (arith, has-cons b p.next conns, v.fresh b);
        placed = λ b. elim (Bool-cases (p.next == b)) [
          | inl is ↦
              let at_new : loose p.next + lent p' p.next ≡ present p' p.next =
                ground
                  (arith, has-cons p.next p.next conns, ==_iff p.next p.next, own, loose_new) in
              subst (λ c. loose c + lent p' c ≡ present p' c) ((==_iff p.next b).0 is) at_new
          | inr apart ↦
              let unlike : p.next ≢ b = λ i. ==-ne apart i in
              let kept : has b (p.next ∷ conns) ≡ has b conns =
                ground (arith, has-cons b p.next conns, apart) in
              rw (kept, others b unlike) (v.placed b)
        ];
        counted = omega (
          arith,
          v.counted,
          sum_by-except (lent_at p.memory) (lent_at m') p.next conns others absent,
          own,
        );
      } in
      if_cases (λ (r : Pool × Option ℕ). IsSound r.0 loose)
        (ltb_ℤ p.total_connections p.max_connections && not p.closed)
        {x = (record p' { connections = insert p.next conns }, some p.next)} {y = (p, none)}
        (λ fits. rw (inserted p.next conns absent) (
          sound (
            below_cap (length conns) p.max_connections
              (subst (λ z. ltb_ℤ z p.max_connections ≡ true) v.total (left_of _ fits)))))
        λ full. v

module _ (p : Pool) (loose loose' : ℕ → ℕ) (a : ℕ) (v : IsSound p loose) where
  -- A caller's connection becomes a loose one.
  pub put_down-IsSound :
      (m' : ℕ → Connection)
      → has a p.connections ≡ true
      → is_in_use (p.memory a).status ≡ true
      → lent_at m' a ≡ 0
      → ((b : ℕ) → a ≢ b → lent_at m' b ≡ lent_at p.memory b)
      → ((b : ℕ) → loose' b ≡ loose b + same b a)
      → IsSound (record p { memory = m'; wg = p.wg - 1 }) loose'
  put_down-IsSound m' m used own others more =
      let p' : Pool = record p { memory = m'; wg = p.wg - 1 } in
      let before : lent_at p.memory a ≡ 1 = ground (arith, used) in
      record {
        distinct = v.distinct;
        total = v.total;
        capped = v.capped;
        fresh = v.fresh;
        placed = λ b. elim (Bool-cases (a == b)) [
          | inl is ↦
              let at_a : loose' a + lent p' a ≡ present p' a =
                ground (arith, more a, m, own, before, v.placed a) in
              subst (λ c. loose' c + lent p' c ≡ present p' c) ((==_iff a b).0 is) at_a
          | inr apart ↦
              let unlike : a ≢ b = λ i. ==-ne apart i in
              let weight : loose' b ≡ loose b = ground (arith, more b, apart) in
              rw (others b unlike, weight) (v.placed b)
        ];
        counted = omega (
          arith,
          v.counted,
          sum_by-change (lent_at p.memory) (lent_at m') a p.connections others v.distinct m,
          own,
          before,
        );
      }

  -- A caller's connection counts in the wait group.
  pub lent-wg : has a p.connections ≡ true → is_in_use (p.memory a).status ≡ true → 0 < p.wg
  lent-wg m used =
      let before : lent_at p.memory a ≡ 1 = ground (arith, used) in
      omega
        (arith, v.counted, sum_by-delete (lent_at p.memory) a p.connections v.distinct m, before)
