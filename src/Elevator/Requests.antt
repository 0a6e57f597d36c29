-- ===== src/Elevator/Requests.antt =====
-- Requests as keys of `map[Request]bool` in Elevator_System/elevator.go.
use low_level_design_in_go.Base.{◌≡◌, Bool, true, false, ◌&&◌, ◌↔◌, ◌==◌, Eq, arith}
use low_level_design_in_go.Elevator.{idle, RequestType, external, internal, Request, direction_eq}

abbrev pub type_eq : RequestType → RequestType → Bool
type_eq external external = true
type_eq internal internal = true
type_eq _ _ = false

abbrev pub request_beq : Request → Request → Bool
request_beq a b =
    (a.floor == b.floor) && direction_eq a.direction b.direction && type_eq a.type b.type

pub request_beq_iff : (a b : Request) → (request_beq a b ≡ true) ↔ (a ≡ b)
request_beq_iff a b = ground arith

instance abbrev pub request_eq : Eq Request
request_eq = record { beq = request_beq; beq_iff = request_beq_iff }

-- `Request{}`; its empty direction and type are taken to be `idle` and `external`.
abbrev pub no_request : Request
no_request = record { floor = 0; direction = idle; type = external }
