-- ===== src/Parking/Lot/Commits.antt =====
-- commitBlueprint of Parking_Management/parking.go: what it keeps, and what it hands to the robots.
use low_level_design_in_go.Base.{
  ℕ, ◌<◌, ◌≡◌, ◌≢◌, refl, sym, ap, subst, ◌∙◌, ◌++◌, String, str_eq, str_eq_iff, Bool, true, false,
  not, ◌&&◌, Option, none, some, List, [], ◌∷◌, ltb, ◌==◌, if◌then◌else◌, if_cases, length, All,
  All-append, arith,
}
use low_level_design_in_go.Base.Int.{pos, pos_part, ltb_ℤ}
use low_level_design_in_go.Base.Run.{ok, ◌>>=◌, Returns, returns, Returns-bind, Returns-if}
use low_level_design_in_go.Parking.{ParkingRecord, VehicleMove}
use low_level_design_in_go.Parking.Lot.{find, AutomatedParkingSystem}
use low_level_design_in_go.Parking.Lot.Blueprint.{
  retarget, robot_move, commit_moves, commit_blueprint, IsBooked, retarget-Retargeted, some_inj,
}

-- A move between two floors, to one of the `n` floors of the building.
abbrev pub IsMove : ℕ → VehicleMove → Type 0
IsMove n move = (move.from_floor_number ≢ move.to_floor_number) × (move.to_floor_number < n)

robot_move-IsMove :
    (n : ℕ) (r : ParkingRecord) (move : VehicleMove)
    → move.to_floor_number < n
    → All (IsMove n) (robot_move r move)
unfolding robot_move
robot_move-IsMove n r move low =
    let standing = not (ltb_ℤ r.physical_floor_number (pos 0)) in
    let from = if standing then pos_part r.physical_floor_number else move.from_floor_number in
    if_cases (All (IsMove n)) (standing && pos_part r.physical_floor_number == move.to_floor_number)
      (λ _. tt)
      (λ _.
        if_cases (All (IsMove n)) (from == move.to_floor_number) (λ _. tt)
          (λ differ. ((distinct from move.to_floor_number differ, low), tt)))
  where
    distinct : (a b : ℕ) → (a == b) ≡ false → a ≢ b
    distinct a b e = ground arith

-- The floor that moves, one after the other, give a ticket that is at `floor`.
abbrev pub aim : String → List VehicleMove → ℕ → ℕ
aim key [] floor = floor
aim key (move ∷ moves) floor =
    aim key moves (if str_eq key move.ticket_id then move.to_floor_number else floor)

-- A record after the moves: only the target of a vehicle that is not leaving changes.
abbrev pub settled : String → List VehicleMove → ParkingRecord → ParkingRecord
settled key moves r = record r {
  target_floor_number =
      if r.unpark_requested then r.target_floor_number else aim key moves r.target_floor_number;
}

-- Every record has the target that the moves give it, and is otherwise as it was.
abbrev pub Settles : AutomatedParkingSystem → List VehicleMove → AutomatedParkingSystem → Type 0
Settles p moves p' =
    (key : String) (r : ParkingRecord)
    → find key p.records_by_tkt_id ≡ some r
    → find key p'.records_by_tkt_id ≡ some (settled key moves r)

aim-append :
    (key : String) (ms ns : List VehicleMove) (floor : ℕ)
    → aim key (ms ++ ns) floor ≡ aim key ns (aim key ms floor)
aim-append key [] ns floor = refl
aim-append key (m ∷ ms) ns floor =
    aim-append key ms ns (if str_eq key m.ticket_id then m.to_floor_number else floor)

settled-append :
    (key : String) (ms ns : List VehicleMove) (r : ParkingRecord)
    → settled key ns (settled key ms r) ≡ settled key (ms ++ ns) r
settled-append key ms ns r = go r.unpark_requested
  where
    go :
        (b : Bool)
        → record r {
          target_floor_number =
              if b
              then if b then r.target_floor_number else aim key ms r.target_floor_number
              else aim key ns
                  (if b then r.target_floor_number else aim key ms r.target_floor_number);
        }
          ≡ record r {
            target_floor_number =
                if b then r.target_floor_number else aim key (ms ++ ns) r.target_floor_number;
          }
    go true = refl
    go false =
        ap (λ t. let q : ParkingRecord = record r { target_floor_number = t } in q)
          (sym (aim-append key ms ns r.target_floor_number))

settled_none : (key : String) (r : ParkingRecord) → settled key [] r ≡ r
settled_none key r = go r.unpark_requested
  where
    go :
        (b : Bool)
        → record r {
          target_floor_number = if b then r.target_floor_number else r.target_floor_number;
        }
          ≡ r
    go true = refl
    go false = refl

Settles-append :
    (p p' p'' : AutomatedParkingSystem) (ms ns : List VehicleMove)
    → Settles p ms p'
    → Settles p' ns p''
    → Settles p (ms ++ ns) p''
Settles-append p p' p'' ms ns first second key r at =
    second key (settled key ms r) (first key r at) ∙ ap some (settled-append key ms ns r)

-- What a commit leaves: the books, the records on their targets, and moves for the robots.
abbrev Committed :
    AutomatedParkingSystem → List VehicleMove → AutomatedParkingSystem × List VehicleMove → Type 0
Committed p planned (p', moves) =
    IsBooked p'
    × (length p'.floors ≡ length p.floors)
    × Settles p planned p'
    × All (IsMove (length p.floors)) moves

-- One move settles the records, if it changes the target of its own ticket only, and that unless the
-- vehicle is leaving.
one-Settles :
    (p p' : AutomatedParkingSystem) (move : VehicleMove)
    → ((key : String) (q : ParkingRecord)
        → find key p.records_by_tkt_id ≡ some q
        → str_eq key move.ticket_id ≡ false
        → find key p'.records_by_tkt_id ≡ some q)
    → ((key : String) (q : ParkingRecord)
        → find key p.records_by_tkt_id ≡ some q
        → str_eq key move.ticket_id ≡ true
        → find key p'.records_by_tkt_id
          ≡ some (record q {
            target_floor_number =
                if q.unpark_requested then q.target_floor_number else move.to_floor_number;
          }))
    → Settles p (move ∷ []) p'
one-Settles p p' move others own key q at =
    go (str_eq key move.ticket_id) q.unpark_requested refl refl
  where
    go :
        (here leaves : Bool)
        → str_eq key move.ticket_id ≡ here
        → q.unpark_requested ≡ leaves
        → find key p'.records_by_tkt_id
          ≡ some (record q {
            target_floor_number =
                if leaves
                then q.target_floor_number
                else if here
                then move.to_floor_number
                else q.target_floor_number;
          })
    go true true e l = own key q at e ∙ rw l refl
    go true false e l = own key q at e ∙ rw l refl
    go false true e l = others key q at e
    go false false e l = others key q at e

one-Committed :
    (p : AutomatedParkingSystem) (move : VehicleMove)
    → IsBooked p
    → move.to_floor_number < length p.floors
    → Returns (Committed p (move ∷ [])) (elim (find move.ticket_id p.records_by_tkt_id) [
      | none ↦ ok (p, [])
      | some r ↦
          let retargeted = retarget p move.ticket_id r move.to_floor_number in
          if r.unpark_requested
          then ok (p, [])
          else (retargeted >>= λ p'. ok (p', robot_move r move))
    ])
one-Committed p move b low = go (find move.ticket_id p.records_by_tkt_id) refl
  where
    ticket_of :
        (key : String)
        → str_eq key move.ticket_id ≡ true
        → find key p.records_by_tkt_id ≡ find move.ticket_id p.records_by_tkt_id
    ticket_of key e = ap (λ k. find k p.records_by_tkt_id) ((str_eq_iff key move.ticket_id).0 e)

    go :
        (o : Option ParkingRecord)
        → find move.ticket_id p.records_by_tkt_id ≡ o
        → Returns (Committed p (move ∷ [])) (elim o [
          | none ↦ ok (p, [])
          | some r ↦
              let retargeted = retarget p move.ticket_id r move.to_floor_number in
              if r.unpark_requested
              then ok (p, [])
              else (retargeted >>= λ p'. ok (p', robot_move r move))
        ])
    go none e = returns (
      b,
      refl,
      one-Settles p p move (λ key q at _. at)
          (λ key q at here. absurd (ground (arith, sym at ∙ ticket_of key here ∙ e))),
      tt,
    )
    go (some r) e =
        Returns-if r.unpark_requested
          (λ leaves. returns (
            b,
            refl,
            one-Settles p p move (λ key q at _. at)
                (λ key q at here.
                  let q_r : q ≡ r = some_inj (sym at ∙ ticket_of key here ∙ e) in
                  let q_leaves : q.unpark_requested ≡ true =
                    ap (λ x. x.unpark_requested) q_r ∙ leaves in
                  at
                  ∙ ap
                      (λ b.
                        let x : ParkingRecord = record q {
                          target_floor_number =
                              if b then q.target_floor_number else move.to_floor_number;
                        } in
                        some x)
                      (sym q_leaves)),
            tt,
          ))
          λ stays.
            Returns-bind (retarget-Retargeted p move.ticket_id r move.to_floor_number b e stays low)
              λ p' t. returns (
                t.books,
                t.size,
                one-Settles p p' move
                    (λ key q at apart.
                      t.changed key q at
                      ∙ ap
                          (λ b.
                            let x : ParkingRecord =
                              if b
                              then record q { target_floor_number = move.to_floor_number }
                              else q in
                            some x)
                          apart)
                    (λ key q at here.
                      let q_r : q ≡ r = some_inj (sym at ∙ ticket_of key here ∙ e) in
                      let q_stays : q.unpark_requested ≡ false =
                        ap (λ x. x.unpark_requested) q_r ∙ stays in
                      t.changed key q at
                      ∙ ap
                          (λ b.
                            let x : ParkingRecord =
                              if b
                              then record q { target_floor_number = move.to_floor_number }
                              else q in
                            some x)
                          here
                      ∙ ap
                          (λ b.
                            let x : ParkingRecord = record q {
                              target_floor_number =
                                  if b then q.target_floor_number else move.to_floor_number;
                            } in
                            some x)
                          (sym q_stays)),
                robot_move-IsMove (length p.floors) r move low,
              )

commit_moves-Committed :
    (p : AutomatedParkingSystem) (moves : List VehicleMove)
    → IsBooked p
    → All (λ m. m.to_floor_number < length p.floors) moves
    → Returns (Committed p moves) (commit_moves p moves)
unfolding commit_moves
commit_moves-Committed p [] b all =
    returns (b, refl, (λ key r at. at ∙ ap some (sym (settled_none key r))), tt)
commit_moves-Committed p (move ∷ moves) b all =
    Returns-bind (one-Committed p move b all.0) λ (p', first) (b', size, settles, ok_first).
      Returns-bind
        (commit_moves-Committed p' moves b'
          (subst (λ n. All (λ m. m.to_floor_number < n) moves) (sym size) all.1))
        λ (p'', rest) (b'', size', settles', ok_rest). returns (
          b'',
          size' ∙ size,
          Settles-append p p' p'' (move ∷ []) moves settles settles',
          All-append _ first rest ok_first (subst (λ n. All (IsMove n) rest) size ok_rest),
        )

-- The moves of all components.
abbrev pub moves_of : List (List VehicleMove × Bool) → List VehicleMove
moves_of [] = []
moves_of ((component, loop) ∷ order) = component ++ moves_of order

-- The components for the robots: none is empty, and each holds moves between floors.
abbrev pub AreComponents : ℕ → List (List VehicleMove × Bool) → Type 0
AreComponents n comps = All (λ (moves, loop). (0 < length moves) × All (IsMove n) moves) comps

-- When each floor has reserved exactly what the records hold there and the moves lead to floors of
-- the building, commitBlueprint returns, and so it is afterwards, with the records on their new
-- targets (the floor of the ticket's last move, for a vehicle that is not leaving) and otherwise
-- unchanged, and with as many floors. The components that it hands to the robots are not empty, and
-- each of their moves leads to a floor of the building, from another floor number.
pub commit_blueprint-IsBooked :
    (p : AutomatedParkingSystem) (order : List (List VehicleMove × Bool))
    → IsBooked p
    → All (λ (moves, loop). All (λ m. m.to_floor_number < length p.floors) moves) order
    → Returns
        (λ (p', comps).
          IsBooked p'
          × (length p'.floors ≡ length p.floors)
          × Settles p (moves_of order) p'
          × AreComponents (length p.floors) comps)
        (commit_blueprint p order)
unfolding commit_blueprint
commit_blueprint-IsBooked p [] b all =
    returns (b, refl, (λ key r at. at ∙ ap some (sym (settled_none key r))), tt)
commit_blueprint-IsBooked p ((component, loop) ∷ order) b all =
    Returns-bind (commit_moves-Committed p component b all.0)
      λ (p', moves) (b', size, settles, ok_moves).
        Returns-bind
          (commit_blueprint-IsBooked p' order b' (
            subst (λ n. All (λ (ms, l). All (λ m. m.to_floor_number < n) ms) order) (sym size)
              all.1))
          λ (p'', comps) (b'', size', settles', ok_comps).
            let comps_here = subst (λ n. AreComponents n comps) size ok_comps in
            returns (
              b'',
              size' ∙ size,
              Settles-append p p' p'' component (moves_of order) settles settles',
              if_cases (AreComponents (length p.floors)) (ltb 0 (length moves))
                  (λ some_moves. ((ground arith, ok_moves), comps_here)) (λ _. comps_here),
            )
