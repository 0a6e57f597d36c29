-- ===== src/Elevator/Directional/Invariant.antt =====
-- The invariant of the Directional strategy in Elevator_System/elevator.go, and AddRequest.
use mathlib.Core.List.{perm_middle}
use mathlib.Core.List.Perm
use low_level_design_in_go.Base.{
  ◌≡◌, refl, ◌⊎◌, inl, inr, [], Perm, arith, has, insert, Distinct, Bool-cases,
}
use low_level_design_in_go.Base.Run.{Returns, returns, Returns-bind, Returns-if}
use low_level_design_in_go.ContainerHeap.Operations.{push-Holds}
use low_level_design_in_go.Elevator.{up, down, Request, direction_eq}
use low_level_design_in_go.Elevator.Requests.{request_eq, no_request}
use low_level_design_in_go.Elevator.Heaps.{
  min_heap, max_heap, by_floor, by_floor_down, min_heap_lawful, max_heap_lawful,
}
use low_level_design_in_go.Elevator.Directional.{Directional, new_directional, add_request}
use low_level_design_in_go.Elevator.Directional.Rebucket.{Ordered, contents}

-- The strategy's invariant: both heaps in order, the pending set exactly the requests in them, each
-- once, and a sweep that is up or down.
pub record IsValid (s : Directional) : Type 0 where
  pub ordered : Ordered s
  pub kept : Perm s.pending (contents s)
  pub distinct : Distinct s.pending
  pub sweeping : (s.sweep ≡ up) ⊎ (s.sweep ≡ down)

pub new-IsValid : IsValid new_directional
unfolding new_directional
new-IsValid = record {
  ordered = record {
    ups = record { good = tt; heap = λ c p q. absurd (omega arith) };
    downs = record { good = tt; heap = λ c p q. absurd (omega arith) };
  };
  kept = Perm.refl [];
  distinct = tt;
  sweeping = inl refl;
}

-- What AddRequest leaves: a valid strategy whose set of pending requests has gained the request.
pub record Added (s : Directional) (r : Request) (s' : Directional) : Type 0 where
  pub valid : IsValid s'
  pub pending : s'.pending ≡ insert r s.pending
  pub sweep : s'.sweep ≡ s.sweep

-- AddRequest returns on a valid Directional strategy, which stays valid with the same sweep; its
-- pending set has gained the request, and is as it was if the request was pending already.
pub add_request-Added :
    (s : Directional) (r : Request) → IsValid s → Returns (Added s r) (add_request s r)
unfolding add_request insert
add_request-Added s r v = elim (Bool-cases (has r s.pending)) [
  | inl old ↦ rw old (returns (record { valid = v; pending = rw old refl; sweep = refl }))
  | inr new ↦ rw new (
      Returns-if (direction_eq r.direction down)
        (λ falls.
          Returns-bind
            (push-Holds max_heap by_floor_down no_request max_heap_lawful s.down_heap r
              v.ordered.downs tt)
            λ d (heaped, same). returns (record {
              valid = record {
                ordered = record { ups = v.ordered.ups; downs = heaped };
                kept = Perm.trans (Perm.cons r v.kept) (
                    Perm.symm (
                      Perm.trans (Perm.append_left s.up_heap same)
                        (perm_middle s.up_heap s.down_heap)));
                distinct = (new, v.distinct);
                sweeping = v.sweeping;
              };
              pending = rw new refl;
              sweep = refl;
            }))
        (λ rises.
          Returns-bind
            (push-Holds min_heap by_floor no_request min_heap_lawful s.up_heap r v.ordered.ups tt)
            λ u (heaped, same). returns (record {
              valid = record {
                ordered = record { ups = heaped; downs = v.ordered.downs };
                kept =
                    Perm.trans (Perm.cons r v.kept)
                      (Perm.symm (Perm.append_right s.down_heap same));
                distinct = (new, v.distinct);
                sweeping = v.sweeping;
              };
              pending = rw new refl;
              sweep = refl;
            })))
]
