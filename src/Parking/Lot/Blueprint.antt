-- ===== src/Parking/Lot/Blueprint.antt =====
-- commitBlueprint of Parking_Management/parking.go: the targets of a plan are put into the books.
use low_level_design_in_go.Base.{
  ℕ, ◌+◌, ◌-◌, ◌≤◌, ◌<◌, ◌≡◌, refl, sym, ap, subst, ◌∙◌, String, str_eq, str_eq_iff, if_cases, true,
  Bool, false, not, ◌&&◌, none, some, List, [], ◌∷◌, ◌++◌, ltb, ◌==◌, if◌then◌else◌, Bool-cases,
  inl, inr, length, length-set, set, All, arith,
}
use low_level_design_in_go.Base.Int.{pos, pos_part, ltb_ℤ}
use low_level_design_in_go.Base.Run.{Run, ok, ◌>>=◌, index-get_or, Returns, returns, Returns-if}
use low_level_design_in_go.Parking.{Floor, ParkingRecord, VehicleMove, get_vehicle_space}
use low_level_design_in_go.Parking.Choices.{no_floor}
use low_level_design_in_go.Parking.Lot.{Records, find, put, AutomatedParkingSystem, reserve}
use low_level_design_in_go.Parking.Lot.Books.{
  held, booked, booked-put_old, floor_at, floor_at-reserve, put-All, find-All,
}
use low_level_design_in_go.Parking.Lot.Leaving.{find-put, held_le-booked}

-- The record's target becomes `target`, and its space is reserved there.
unfoldable pub retarget :
    AutomatedParkingSystem → String → ParkingRecord → ℕ → Run AutomatedParkingSystem
unfolding put
retarget p ticket_id r target =
    let space = get_vehicle_space r.vehicle.type in
    if r.target_floor_number == target
    then ok p
    else (reserve p.floors r.target_floor_number (λ reserved. reserved - space) >>= λ floors.
        reserve floors target (λ reserved. reserved + space) >>= λ floors'. ok (record p {
          floors = floors';
          records_by_tkt_id =
              put ticket_id (record r { target_floor_number = target }) p.records_by_tkt_id;
        }))

-- The move for the robots, unless the vehicle stands there already.
unfoldable pub robot_move : ParkingRecord → VehicleMove → List VehicleMove
robot_move r move =
    let standing = not (ltb_ℤ r.physical_floor_number (pos 0)) in
    let from = if standing then pos_part r.physical_floor_number else move.from_floor_number in
    if standing && pos_part r.physical_floor_number == move.to_floor_number
    then []
    else if from == move.to_floor_number
    then []
    else record {
      ticket_id = r.ticket_id;
      from_floor_number = from;
      to_floor_number = move.to_floor_number;
    }
      ∷ []

-- The loop over the moves of a component.
unfoldable pub commit_moves :
    AutomatedParkingSystem → List VehicleMove → Run (AutomatedParkingSystem × List VehicleMove)
unfolding find retarget robot_move
commit_moves p [] = ok (p, [])
commit_moves p (move ∷ moves) =
    (elim (find move.ticket_id p.records_by_tkt_id) [
      | none ↦ ok (p, [])
      | some r ↦
          let retargeted = retarget p move.ticket_id r move.to_floor_number in
          if r.unpark_requested
          then ok (p, [])
          else (retargeted >>= λ p'. ok (p', robot_move r move))
    ])
    >>= λ (p', first). commit_moves p' moves >>= λ (p'', rest). ok (p'', first ++ rest)

-- The loop over the components: each with its moves and whether they are a loop.
unfoldable pub commit_blueprint :
    AutomatedParkingSystem
    → List (List VehicleMove × Bool)
    → Run (AutomatedParkingSystem × List (List VehicleMove × Bool))
unfolding commit_moves
commit_blueprint p [] = ok (p, [])
commit_blueprint p ((component, loop) ∷ order) = commit_moves p component >>= λ (p', moves).
    commit_blueprint p' order >>= λ (p'', comps).
    ok (p'', if ltb 0 (length moves) then (moves, loop) ∷ comps else comps)

-- Each floor has reserved exactly what the records hold there.
pub record IsBooked (p : AutomatedParkingSystem) : Type 0 where
  pub reserved :
      (i : ℕ)
      → i < length p.floors
      → (floor_at p.floors i).reserved_capacity ≡ booked i p.records_by_tkt_id
  pub targets : All (λ (k, r). r.target_floor_number < length p.floors) p.records_by_tkt_id

-- What a change of a target leaves: the books, with the vehicle on its new floor.
pub record Retargeted (p : AutomatedParkingSystem) (ticket_id : String) (target : ℕ)
    (p' : AutomatedParkingSystem) : Type 0 where
  pub books : IsBooked p'
  pub size : length p'.floors ≡ length p.floors
  pub moved :
      (q : ParkingRecord) × (find ticket_id p'.records_by_tkt_id ≡ some q)
      × (q.target_floor_number ≡ target)
  pub changed :
      (key : String) (q : ParkingRecord)
      → find key p.records_by_tkt_id ≡ some q
      → find key p'.records_by_tkt_id
        ≡ some (if str_eq key ticket_id then record q { target_floor_number = target } else q)

pub some_inj : {q r : ParkingRecord} → some q ≡ some r → q ≡ r
some_inj {q} {r} e = ap (λ o. elim o [ none ↦ q | some x ↦ x ]) e

-- A put leaves the other keys.
find-put_other :
    (key other : String) (r : ParkingRecord) (records : Records)
    → str_eq other key ≡ false
    → find other (put key r records) ≡ find other records
unfolding find put
find-put_other key other r [] apart = rw apart refl
find-put_other key other r ((k, s) ∷ rest) apart = elim (Bool-cases (str_eq key k)) [
  | inl same ↦
      let e : key ≡ k = (str_eq_iff key k).0 same in
      let apart' : str_eq other k ≡ false = subst (λ x. str_eq other x ≡ false) e apart in
      rw (same, apart') refl
  | inr differs ↦ rw differs (
      if_cases (λ o. o ≡ find other ((k, s) ∷ rest)) (str_eq other k) (λ here. rw here refl)
        λ on. rw on (find-put_other key other r rest apart))
]

module _ (p : AutomatedParkingSystem) (ticket_id : String) (r : ParkingRecord) (target : ℕ)
    (b : IsBooked p) (found : find ticket_id p.records_by_tkt_id ≡ some r)
    (stays : r.unpark_requested ≡ false) (low : target < length p.floors) where
  abbrev space : ℕ
  space = get_vehicle_space r.vehicle.type

  abbrev old : ℕ
  old = r.target_floor_number

  abbrev floors1 : List Floor
  floors1 = set p.floors old (record (floor_at p.floors old) {
    reserved_capacity = (floor_at p.floors old).reserved_capacity - space;
  })

  abbrev floors2 : List Floor
  floors2 = set floors1 target (record (floor_at floors1 target) {
    reserved_capacity = (floor_at floors1 target).reserved_capacity + space;
  })

  home : old < length p.floors
  home =
      find-All (λ q. q.target_floor_number < length p.floors) ticket_id r p.records_by_tkt_id found
        b.targets

  size1 : length floors1 ≡ length p.floors
  size1 = length-set p.floors old _

  size2 : length floors2 ≡ length p.floors
  size2 = length-set floors1 target _ ∙ size1

  was_reserved : space ≤ (floor_at p.floors old).reserved_capacity
  was_reserved =
      let here : held old r ≡ space = ground (arith, stays) in
      omega
        (arith, here, b.reserved old home, held_le-booked old ticket_id r p.records_by_tkt_id found)

  reserved_after :
      (j : ℕ)
      → j < length p.floors
      → (old == target) ≡ false
      → (floor_at floors2 j).reserved_capacity
        ≡ booked j (put ticket_id (record r { target_floor_number = target }) p.records_by_tkt_id)
  reserved_after j inside differ =
      let r' : ParkingRecord = record r { target_floor_number = target } in
      let first =
        (floor_at-reserve p.floors old j ((floor_at p.floors old).reserved_capacity - space)
          home).1 in
      let there =
        (floor_at-reserve p.floors old target ((floor_at p.floors old).reserved_capacity - space)
          home).1 in
      let second =
        (floor_at-reserve floors1 target j ((floor_at floors1 target).reserved_capacity + space)
          (omega (arith, size1))).1 in
      let change = booked-put_old j ticket_id r' r p.records_by_tkt_id found in
      let before : held j r ≡ (if old == j then space else 0) = ground (arith, stays) in
      let after : held j r' ≡ (if target == j then space else 0) = ground (arith, stays) in
      elim (Bool-cases (target == j)) [
        | inl new ↦
            let e : target ≡ j = ground arith in
            let same : (floor_at p.floors target).reserved_capacity
                ≡ (floor_at p.floors j).reserved_capacity =
              ap (λ k. (floor_at p.floors k).reserved_capacity) e in
            let away : (old == j) ≡ false = ground arith in
            let second' : (floor_at floors2 j).reserved_capacity
                ≡ (floor_at floors1 target).reserved_capacity + space =
              second ∙ rw new refl in
            let there' : (floor_at floors1 target).reserved_capacity
                ≡ (floor_at p.floors target).reserved_capacity =
              there ∙ rw differ refl in
            let before' : held j r ≡ 0 = before ∙ rw away refl in
            let after' : held j r' ≡ space = after ∙ rw new refl in
            omega (arith, second', there', same, before', after', change, b.reserved j inside)
        | inr not_new ↦ elim (Bool-cases (old == j)) [
          | inl left ↦
              let e : old ≡ j = ground arith in
              let same : (floor_at p.floors old).reserved_capacity
                  ≡ (floor_at p.floors j).reserved_capacity =
                ap (λ k. (floor_at p.floors k).reserved_capacity) e in
              let second' : (floor_at floors2 j).reserved_capacity
                  ≡ (floor_at floors1 j).reserved_capacity =
                second ∙ rw not_new refl in
              let first' : (floor_at floors1 j).reserved_capacity
                  ≡ (floor_at p.floors old).reserved_capacity - space =
                first ∙ rw left refl in
              let before' : held j r ≡ space = before ∙ rw left refl in
              let after' : held j r' ≡ 0 = after ∙ rw not_new refl in
              omega (
                arith,
                second',
                first',
                same,
                before',
                after',
                change,
                b.reserved j inside,
                was_reserved,
              )
          | inr apart ↦
              let second' : (floor_at floors2 j).reserved_capacity
                  ≡ (floor_at floors1 j).reserved_capacity =
                second ∙ rw not_new refl in
              let first' : (floor_at floors1 j).reserved_capacity
                  ≡ (floor_at p.floors j).reserved_capacity =
                first ∙ rw apart refl in
              let before' : held j r ≡ 0 = before ∙ rw apart refl in
              let after' : held j r' ≡ 0 = after ∙ rw not_new refl in
              omega (arith, second', first', before', after', change, b.reserved j inside)
        ]
      ]

  unmoved :
      (key : String) (q : ParkingRecord)
      → find key p.records_by_tkt_id ≡ some q
      → (old == target) ≡ true
      → q ≡ (if str_eq key ticket_id then record q { target_floor_number = target } else q)
  unmoved key q at same =
      if_cases (λ x. q ≡ x) (str_eq key ticket_id)
        (λ here.
          let e : q ≡ r = some_inj (
            sym at
            ∙ ap (λ k. find k p.records_by_tkt_id) ((str_eq_iff key ticket_id).0 here)
            ∙ found) in
          let home_already : q.target_floor_number ≡ target =
            ap (λ x. x.target_floor_number) e ∙ ground (arith, same) in
          ap (λ t. record q { target_floor_number = t }) home_already)
        λ other. refl

  changed_there :
      (key : String) (q : ParkingRecord)
      → find key p.records_by_tkt_id ≡ some q
      → find key (put ticket_id (record r { target_floor_number = target }) p.records_by_tkt_id)
        ≡ some (if str_eq key ticket_id then record q { target_floor_number = target } else q)
  changed_there key q at =
      let r' : ParkingRecord = record r { target_floor_number = target } in
      if_cases (λ x. find key (put ticket_id r' p.records_by_tkt_id) ≡ some x)
        (str_eq key ticket_id)
        (λ here.
          let k : key ≡ ticket_id = (str_eq_iff key ticket_id).0 here in
          let e : r ≡ q =
            some_inj (sym found ∙ ap (λ k. find k p.records_by_tkt_id) (sym k) ∙ at) in
          ap (λ k. find k (put ticket_id r' p.records_by_tkt_id)) k
          ∙ find-put ticket_id r' r p.records_by_tkt_id found
          ∙ ap
              (λ (x : ParkingRecord).
                let y : ParkingRecord = record x { target_floor_number = target } in some y)
              e)
        λ other. find-put_other ticket_id key r' p.records_by_tkt_id other ∙ at

  pub retarget-Retargeted : Returns (Retargeted p ticket_id target) (retarget p ticket_id r target)
  unfolding retarget
  retarget-Retargeted =
      Returns-if (old == target)
        (λ same. returns (record {
          books = b;
          size = refl;
          moved = (r, found, ground arith);
          changed = λ key q at. at ∙ ap some (unmoved key q at same);
        }))
        (λ differ.
          rw
            (
              index-get_or p.floors old no_floor home,
              index-get_or floors1 target no_floor (omega (arith, size1)),
            )
            (returns (record {
              books = record {
                reserved = λ j inside. reserved_after j (omega (arith, size2)) differ;
                targets =
                    put-All (λ q. q.target_floor_number < length floors2) ticket_id
                      (record r { target_floor_number = target }) p.records_by_tkt_id
                      (omega (arith, size2, low))
                      (subst (λ n. All (λ (k, q). q.target_floor_number < n) p.records_by_tkt_id)
                        (sym size2) b.targets);
              };
              size = size2;
              changed = changed_there;
              moved = (
                record r { target_floor_number = target },
                find-put ticket_id (record r { target_floor_number = target }) r p.records_by_tkt_id
                    found,
                refl,
              );
            })))
