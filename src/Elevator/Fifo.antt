-- ===== src/Elevator/Fifo.antt =====
-- The FIFO strategy of Elevator_System/elevator.go.
use mathlib.Core.List.Perm
use low_level_design_in_go.Base.{
  ◌≡◌, refl, sym, subst, ◌∙◌, List, [], ◌∷◌, ◌++◌, Perm, Option, none, some, arith, if◌then◌else◌,
  Bool-cases, inl, inr, length-perm, has, insert, delete, Distinct, concat-perm, has-perm,
  delete-Distinct, delete-perm, has_self,
}
use low_level_design_in_go.Base.Run.{Run, ok, Returns, returns, Returns-map}
use low_level_design_in_go.Elevator.{Request, ElevatorState, SchedulingStrategy}
use low_level_design_in_go.Elevator.Requests.{request_eq}
use low_level_design_in_go.Elevator.Strategy.{Answer, next, done, LawfulStrategy}

pub record Fifo : Type 0 where
  pub requests : List Request
  pub waiting : List Request

pub add_request : Fifo → Request → Run Fifo
unfolding insert
add_request s request =
    if has request s.waiting
    then ok s
    else ok (record s { requests = s.requests ++ request ∷ []; waiting = insert request s.waiting })

pub next_request : Fifo → ElevatorState → Run (Option Request × Fifo)
next_request s current = elim s.requests [
  | [] ↦ ok (none, s)
  | request ∷ rest ↦
      ok (some request, record s { requests = rest; waiting = delete request s.waiting })
]

pub pending : Fifo → List Request
pending s = s.requests

abbrev pub fifo : SchedulingStrategy Fifo
fifo = record { add_request = add_request; next_request = next_request; pending = pending }

-- The map holds exactly the requests of the queue, each once.
pub record IsValid (s : Fifo) : Type 0 where
  pub kept : Perm s.waiting s.requests
  pub distinct : Distinct s.waiting

-- AddRequest of a valid FIFO strategy puts a request that is not pending at the end of the queue and
-- into the pending set, drops any other, and leaves the strategy valid.
pub add_request-queue :
    (s : Fifo) (r : Request)
    → IsValid s
    → Returns
        (λ s'.
          IsValid s'
          × (s'.waiting ≡ insert r s.waiting)
          × (s'.requests ≡ (if has r s.waiting then s.requests else s.requests ++ r ∷ [])))
        (add_request s r)
unfolding add_request insert
add_request-queue s r v = elim (Bool-cases (has r s.waiting)) [
  | inl old ↦ rw old (returns (v, refl, refl))
  | inr new ↦ rw new (
      returns (
        record {
          kept = Perm.trans (Perm.cons r v.kept) (Perm.symm (concat-perm s.requests r));
          distinct = (new, v.distinct);
        },
        refl,
        refl,
      ))
]

abbrev pub queue_of : Option Request → List Request
queue_of none = []
queue_of (some r) = r ∷ []

nil_of_perm : {rs : List Request} → Perm rs [] → rs ≡ []
nil_of_perm {rs = []} p = refl
nil_of_perm {rs = r ∷ rs} p = absurd (omega (arith, length-perm p))

next_empty :
    (s : Fifo) (current : ElevatorState) → s.requests ≡ [] → next_request s current ≡ ok (none, s)
unfolding next_request
next_empty s current e = ground arith

next_first :
    (s : Fifo) (current : ElevatorState) (r : Request) (rest : List Request)
    → s.requests ≡ r ∷ rest
    → next_request s current
      ≡ ok (some r, record s { requests = rest; waiting = delete r s.waiting })
unfolding next_request
next_first s current r rest e = ground arith

-- NextRequest of a valid FIFO strategy serves the first request of the queue, and none if the queue
-- is empty; the rest of the queue stays, exactly the served request leaves the pending set, and the
-- strategy stays valid.
pub next_request-queue :
    (s : Fifo) (current : ElevatorState) (q : List Request)
    → IsValid s
    → s.requests ≡ q
    → Returns
        (λ (o, s'). IsValid s' × Answer s.waiting s'.waiting o × (q ≡ queue_of o ++ s'.requests))
        (next_request s current)
unfolding next_request
next_request-queue s current [] v e =
    let none_left : s.waiting ≡ [] = nil_of_perm (subst (Perm s.waiting) e v.kept) in
    rw (next_empty s current e) (returns (v, done none_left none_left, sym e))
next_request-queue s current (r ∷ rest) v e =
    let kept : Perm s.waiting (r ∷ rest) = subst (Perm s.waiting) e v.kept in
    let taken = delete-perm r s.waiting v.distinct (has-perm r kept ∙ has_self r rest) in
    rw (next_first s current r rest e) (
      returns (
        record {
          kept = Perm.cons_inv {a = r} (Perm.trans taken kept);
          distinct = delete-Distinct r s.waiting v.distinct;
        },
        next taken,
        refl,
      ))

pub fifo-adds :
    (s : Fifo) (r : Request)
    → IsValid s
    → Returns (λ s'. IsValid s' × Perm s'.waiting (insert r s.waiting)) (add_request s r)
fifo-adds s r v = Returns-map (add_request-queue s r v) λ s' (v', e, _). (v', rw e (Perm.refl _))

pub fifo-nexts :
    (s : Fifo) (current : ElevatorState)
    → IsValid s
    → Returns (λ (o, s'). IsValid s' × Answer s.waiting s'.waiting o) (next_request s current)
fifo-nexts s current v =
    Returns-map (next_request-queue s current s.requests v refl) λ (o, s') (v', a, _). (v', a)

pub fifo-Distinct : (s : Fifo) → IsValid s → Distinct s.waiting
fifo-Distinct s v = v.distinct

pub fifo-lists : (s : Fifo) → IsValid s → Perm (pending s) s.waiting
unfolding pending
fifo-lists s v = Perm.symm v.kept

-- FIFO is a lawful strategy as well.
abbrev pub fifo_lawful : LawfulStrategy fifo
fifo_lawful = record {
  Good = IsValid;
  waiting = λ s. s.waiting;
  distinct = fifo-Distinct;
  adds = fifo-adds;
  nexts = fifo-nexts;
  lists = fifo-lists;
}
