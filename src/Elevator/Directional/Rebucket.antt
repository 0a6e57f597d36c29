-- ===== src/Elevator/Directional/Rebucket.antt =====
-- `rebucket` of Elevator_System/elevator.go puts every request on its side of the car.
use mathlib.Core.List.{perm_middle}
use mathlib.Core.List.Perm
use low_level_design_in_go.Base.{
  ℕ, zero, suc, ◌+◌, ◌≤◌, ◌<◌, ◌≡◌, refl, subst, ◌∙◌, List, ◌∷◌, ◌++◌, Perm, arith, ltb, length,
  get_or, length-perm, has-get_or, Every, Every-nil, Every-cons, Every-perm,
}
use low_level_design_in_go.Base.Run.{
  index-get_or, Returns, returns, Returns-map, Returns-bind, Returns-if,
}
use low_level_design_in_go.ContainerHeap.Order.{root_first}
use low_level_design_in_go.ContainerHeap.Operations.{IsHeaped, push-Holds}
use low_level_design_in_go.ContainerHeap.Removal.{pop-Popped}
use low_level_design_in_go.Elevator.{Request}
use low_level_design_in_go.Elevator.Requests.{request_eq, no_request}
use low_level_design_in_go.Elevator.Heaps.{
  min_heap, max_heap, by_floor, by_floor_down, min_heap_lawful, max_heap_lawful,
}
use low_level_design_in_go.Elevator.Directional.{Directional, rebucket_up, rebucket_down, rebucket}

abbrev pub MinHeaped : List Request → Type 0
MinHeaped = IsHeaped min_heap by_floor no_request min_heap_lawful

abbrev pub MaxHeaped : List Request → Type 0
MaxHeaped = IsHeaped max_heap by_floor_down no_request max_heap_lawful

-- Both heaps are in heap order.
pub record Ordered (s : Directional) : Type 0 where
  pub ups : MinHeaped s.up_heap
  pub downs : MaxHeaped s.down_heap

-- The requests that wait.
abbrev pub contents : Directional → List Request
contents s = s.up_heap ++ s.down_heap

-- Requests were moved between the heaps, and nothing else changed.
pub record Moved (s s' : Directional) : Type 0 where
  pub ordered : Ordered s'
  pub same : Perm (contents s') (contents s)
  pub sweep : s'.sweep ≡ s.sweep
  pub pending : s'.pending ≡ s.pending

pub Moved-refl : {s : Directional} → Ordered s → Moved s s
Moved-refl o = record { ordered = o; same = Perm.refl _; sweep = refl; pending = refl }

Moved-trans : {s t u : Directional} → Moved s t → Moved t u → Moved s u
Moved-trans m n = record {
  ordered = n.ordered;
  same = Perm.trans n.same m.same;
  sweep = n.sweep ∙ m.sweep;
  pending = n.pending ∙ m.pending;
}

pub lowest_first :
    (u : List Request)
    → MinHeaped u
    → 0 < length u
    → Every (λ r. (get_or u 0 no_request).floor ≤ r.floor) u
lowest_first u h some_left r m =
    let (i, inside, at) = has-get_or r no_request u m in
    let first = root_first by_floor no_request (length u) u i h.heap inside in
    subst (λ q. (get_or u 0 no_request).floor ≤ q.floor) at (ground (arith, first))

pub highest_first :
    (d : List Request)
    → MaxHeaped d
    → 0 < length d
    → Every (λ r. r.floor ≤ (get_or d 0 no_request).floor) d
highest_first d h some_left r m =
    let (i, inside, at) = has-get_or r no_request d m in
    let first = root_first by_floor_down no_request (length d) d i h.heap inside in
    subst (λ q. q.floor ≤ (get_or d 0 no_request).floor) at (ground (arith, first))

-- One request moves from the front of one heap to the other.
moved_perm :
    (r : Request) (u u' d d' : List Request)
    → Perm (r ∷ u') u
    → Perm d' (r ∷ d)
    → Perm (u' ++ d') (u ++ d)
moved_perm r u u' d d' p q =
    Perm.trans (Perm.append_left u' q) (Perm.trans (perm_middle u' d) (Perm.append_right d p))

moved_back_perm :
    (r : Request) (u u' d d' : List Request)
    → Perm (r ∷ d') d
    → Perm u' (r ∷ u)
    → Perm (u' ++ d') (u ++ d)
moved_back_perm r u u' d d' p q =
    Perm.trans (Perm.append_right d' q)
      (Perm.trans (Perm.symm (perm_middle u d')) (Perm.append_left u p))

-- After the first loop no request of the up heap is below the car.
abbrev pub Above : ℕ → List Request → Type 0
Above floor = Every (λ r. floor ≤ r.floor)

abbrev pub Below : ℕ → List Request → Type 0
Below floor = Every (λ r. r.floor ≤ floor)

rebucket_up-Above :
    (fuel : ℕ) (s : Directional) (floor : ℕ)
    → Ordered s
    → length s.up_heap < fuel
    → Returns (λ s'. Moved s s' × Above floor s'.up_heap) (rebucket_up fuel s floor)
unfolding rebucket_up
rebucket_up-Above zero s floor o f = absurd (omega arith)
rebucket_up-Above (suc fuel) s floor o f =
    Returns-if (ltb 0 (length s.up_heap))
      (λ some_left.
        let here : 0 < length s.up_heap = ground arith in
        rw (index-get_or s.up_heap 0 no_request here) (
          Returns-if (ltb (get_or s.up_heap 0 no_request).floor floor)
            (λ passed.
              Returns-bind
                (pop-Popped min_heap by_floor no_request min_heap_lawful s.up_heap o.ups here)
                λ (r, u) popped.
                  Returns-bind
                    (push-Holds max_heap by_floor_down no_request max_heap_lawful s.down_heap r
                      o.downs tt)
                    λ d (heaped, same).
                      let next : Directional = record s { up_heap = u; down_heap = d } in
                      let moved : Moved s next = record {
                        ordered = record { ups = popped.heaped; downs = heaped };
                        same = moved_perm r s.up_heap u s.down_heap d popped.rest same;
                        sweep = refl;
                        pending = refl;
                      } in
                      Returns-map
                        (rebucket_up-Above fuel next floor moved.ordered
                          (omega (arith, length-perm popped.rest)))
                        λ s' (more, above). (Moved-trans moved more, above))
            (λ ahead.
              returns
                (Moved-refl o, λ r m. ground (arith, lowest_first s.up_heap o.ups here r m)))))
      (λ empty. returns (Moved-refl o, Every-nil _ s.up_heap (ground arith)))

rebucket_down-Below :
    (fuel : ℕ) (s : Directional) (floor : ℕ)
    → Ordered s
    → length s.down_heap < fuel
    → Above floor s.up_heap
    → Returns
        (λ s'. Moved s s' × Above floor s'.up_heap × Below floor s'.down_heap)
        (rebucket_down fuel s floor)
unfolding rebucket_down
rebucket_down-Below zero s floor o f above = absurd (omega arith)
rebucket_down-Below (suc fuel) s floor o f above =
    Returns-if (ltb 0 (length s.down_heap))
      (λ some_left.
        let here : 0 < length s.down_heap = ground arith in
        rw (index-get_or s.down_heap 0 no_request here) (
          Returns-if (ltb floor (get_or s.down_heap 0 no_request).floor)
            (λ passed.
              Returns-bind
                (pop-Popped max_heap by_floor_down no_request max_heap_lawful s.down_heap o.downs
                  here)
                λ (r, d) popped.
                  Returns-bind
                    (push-Holds min_heap by_floor no_request min_heap_lawful s.up_heap r o.ups tt)
                    λ u (heaped, same).
                      let next : Directional = record s { up_heap = u; down_heap = d } in
                      let moved : Moved s next = record {
                        ordered = record { ups = heaped; downs = popped.heaped };
                        same = moved_back_perm r s.up_heap u s.down_heap d popped.rest same;
                        sweep = refl;
                        pending = refl;
                      } in
                      let higher : floor ≤ r.floor = ground (arith, popped.first 0 here) in
                      Returns-map
                        (rebucket_down-Below fuel next floor moved.ordered
                          (omega (arith, length-perm popped.rest))
                          (Every-perm _ same (Every-cons _ r s.up_heap higher above)))
                        λ s' (more, above', below). (Moved-trans moved more, above', below))
            (λ ahead. returns (
              Moved-refl o,
              above,
              λ r m. ground (arith, highest_first s.down_heap o.downs here r m),
            ))))
      (λ empty. returns (Moved-refl o, above, Every-nil _ s.down_heap (ground arith)))

-- What `rebucket` does for a car at `floor`.
pub record Rebucketed (floor : ℕ) (s s' : Directional) : Type 0 where
  pub moved : Moved s s'
  pub above : Above floor s'.up_heap
  pub below : Below floor s'.down_heap

-- `rebucket` ends within its fuel: it keeps the requests, and leaves none of the up heap below the
-- car and none of the down heap above it.
pub rebucket-Rebucketed :
    (s : Directional) (floor : ℕ) → Ordered s → Returns (Rebucketed floor s) (rebucket s floor)
unfolding rebucket
rebucket-Rebucketed s floor o =
    Returns-bind (rebucket_up-Above (length s.up_heap + 1) s floor o (omega arith))
      λ s' (moved, above).
        Returns-map
          (rebucket_down-Below (length s'.down_heap + 1) s' floor moved.ordered (omega arith) above)
          λ s'' (more, above', below). record {
            moved = Moved-trans moved more;
            above = above';
            below = below;
          }
