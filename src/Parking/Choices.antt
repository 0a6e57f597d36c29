-- ===== src/Parking/Choices.antt =====
-- Which floor each Allocate of Parking_Management/parking_strategy decides on.
use native.Mathlib.Nat.{mul-lt-mul_of_pos_right, mul-le-mul_right, lt_of_mul-lt-mul_right}
use mathlib.Core.List.{append_assoc, append-nil}
use low_level_design_in_go.Base.{
  ℕ, ◌+◌, ◌*◌, ◌≤◌, ◌<◌, ◌≡◌, refl, sym, subst, inl, inr, Bool, true, false, Option, none, some,
  List, [], ◌∷◌, ◌++◌, ltb, ◌==◌, if◌then◌else◌, if_cases, Bool-cases, All, All-append, All-map,
  arith,
}
use low_level_design_in_go.Parking.{Vehicle, Floor, get_vehicle_space}
use low_level_design_in_go.Parking.Strategies.{
  decision, least_reserved, load_balanced, most_compact, compaction,
}

-- The floor has room for the vehicle.
abbrev pub Fits : ℕ → Floor → Type 0
Fits required f = required + f.reserved_capacity ≤ f.capacity

-- The best of the floors with room, and of equally good ones the first: `better f g` tells whether
-- `f` is better than `g`.
pub data Best (better : Floor → Floor → Bool) (required : ℕ) (floors : List Floor)
    : Option Floor → Type 0 where
  no_room : All (λ g. Fits required g → ⊥) floors → Best better required floors none
  best :
      {f : Floor} (before after : List Floor)
      → floors ≡ before ++ f ∷ after
      → Fits required f
      → All (λ g. Fits required g → better f g ≡ true) before
      → All (λ g. Fits required g → better g f ≡ false) after
      → Best better required floors (some f)

abbrev pub no_floor : Floor
no_floor = record { number = 0; capacity = 0; physically_used_capacity = 0; reserved_capacity = 0 }

-- One round of a loop that keeps the best floor.
abbrev keep : (Floor → Floor → Bool) → ℕ → Option Floor → Floor → Option Floor
keep better required selected floor =
    let replaces : Bool = elim selected [ none ↦ true | some f ↦ better floor f ] in
    if ltb floor.capacity (required + floor.reserved_capacity)
    then selected
    else if replaces
    then some floor
    else selected

record Order (better : Floor → Floor → Bool) (required : ℕ) : Type 0 where
  asym : (f g : Floor) → better f g ≡ true → better g f ≡ false
  neg :
      (f g h : Floor)
      → Fits required f
      → Fits required g
      → Fits required h
      → better g f ≡ true
      → better h f ≡ false
      → better g h ≡ true

module _ (better : Floor → Floor → Bool) (required : ℕ) (O : Order better required) where
  longer :
      (f : Floor) (seen before after : List Floor) (g : Floor)
      → seen ≡ before ++ f ∷ after
      → seen ++ g ∷ [] ≡ before ++ f ∷ (after ++ g ∷ [])
  longer f seen before after g e = rw (e, append_assoc before (f ∷ after) (g ∷ []))

  -- A floor that loses stands after the selected one.
  keep-loses :
      {f : Floor} (seen : List Floor) (g : Floor)
      → Best better required seen (some f)
      → (Fits required g → better g f ≡ false)
      → Best better required (seen ++ g ∷ []) (some f)
  keep-loses seen g (best {f} before after e fits b a) worse =
      best before (after ++ g ∷ []) (longer f seen before after g e) fits b
        (All-append _ after (g ∷ []) a (worse, tt))

  -- A floor that wins is better than all that were seen.
  keep-wins :
      {f : Floor} (seen : List Floor) (g : Floor)
      → Best better required seen (some f)
      → Fits required g
      → better g f ≡ true
      → Best better required (seen ++ g ∷ []) (some g)
  keep-wins seen g (best {f} before after e fits b a) room wins =
      best seen [] refl room
        (subst (All (λ h. Fits required h → better g h ≡ true)) (sym e) (
          All-append _ before (f ∷ after)
            (All-map _ _ (λ h le fh. O.neg f g h fits room fh wins (O.asym f h (le fh))) before b)
            ((λ _. wins), All-map _ _ (λ h le fh. O.neg f g h fits room fh wins (le fh)) after a)))
        tt

  keep-Best :
      (seen : List Floor) (selected : Option Floor) (g : Floor)
      → Best better required seen selected
      → Best better required (seen ++ g ∷ []) (keep better required selected g)
  keep-Best seen selected g h =
      elim (Bool-cases (ltb g.capacity (required + g.reserved_capacity))) [
        | inl full ↦ rw full (skips selected h (λ room. absurd (ground arith)))
        | inr room ↦ rw room (takes selected h (ground arith))
      ]
    where
      skips :
          (selected : Option Floor)
          → Best better required seen selected
          → (Fits required g → ⊥)
          → Best better required (seen ++ g ∷ []) selected
      skips none (no_room all) full = no_room (All-append _ seen (g ∷ []) all (full, tt))
      skips (some f) h full = keep-loses seen g h (λ room. absurd (full room))

      takes :
          (selected : Option Floor)
          → Best better required seen selected
          → Fits required g
          → Best better required
              (seen ++ g ∷ [])
              (if elim selected [ none ↦ true | some f ↦ better g f ] then some g else selected)
      takes none (no_room all) room =
          best seen [] refl room (All-map _ _ (λ h unfit fh. absurd (unfit fh)) seen all) tt
      takes (some f) h room =
          if_cases (Best better required (seen ++ g ∷ [])) (better g f)
            (λ wins. keep-wins seen g h room wins) (λ loses. keep-loses seen g h λ _. loses)

none_seen : {better : Floor → Floor → Bool} {required : ℕ} → Best better required [] none
none_seen = no_room tt

abbrev pub less_reserved : Floor → Floor → Bool
less_reserved f g = ltb f.reserved_capacity g.reserved_capacity

less_reserved-Order : (required : ℕ) → Order less_reserved required
less_reserved-Order required = record {
  asym = λ f g h. ground arith;
  neg = λ f g h ff fg fh wins loses. ground arith;
}

least_reserved-Best :
    (required : ℕ) (seen : List Floor) (selected : Option Floor) (floors : List Floor)
    → Best less_reserved required seen selected
    → Best less_reserved required (seen ++ floors) (least_reserved required selected floors)
unfolding least_reserved
least_reserved-Best required seen selected [] h =
    subst (λ s. Best less_reserved required s selected) (sym (append-nil seen)) h
least_reserved-Best required seen selected (g ∷ floors) h =
    subst
      (λ s.
        Best less_reserved required s
          (least_reserved required (keep less_reserved required selected g) floors))
      (append_assoc seen (g ∷ []) floors)
      (least_reserved-Best required (seen ++ g ∷ []) _ floors
        (keep-Best less_reserved required (less_reserved-Order required) seen selected g h))

-- The fractions are ordered, over capacities that are not zero.
fractions :
    (fr fc gr gc hr hc : ℕ)
    → 0 < fc
    → 0 < hc
    → fr * gc < gr * fc
    → hr * fc ≤ fr * hc
    → hr * gc < gr * hc
fractions fr fc gr gc hr hc pf ph wins loses =
    let scaled : fr * gc * hc < gr * fc * hc = mul-lt-mul_of_pos_right wins ph in
    let lower : hr * fc * gc ≤ fr * hc * gc = mul-le-mul_right gc loses in
    lt_of_mul-lt-mul_right fc (omega arith)

-- A greater part of the capacity of `f` is reserved than of that of `g`.
abbrev pub fuller : Floor → Floor → Bool
fuller f g = ltb (g.reserved_capacity * f.capacity) (f.reserved_capacity * g.capacity)

fuller-Order : (required : ℕ) → 0 < required → Order fuller required
fuller-Order required some_space = record {
  asym = λ f g h. ground arith;
  neg = λ f g h ff fg fh wins loses.
      let less =
        fractions f.reserved_capacity f.capacity g.reserved_capacity g.capacity h.reserved_capacity
          h.capacity (omega arith) (omega arith) (ground arith) (ground arith) in
      ground arith;
}

most_compact-Best :
    (required : ℕ) (seen : List Floor) (selected : Option Floor) (floors : List Floor)
    → 0 < required
    → Best fuller required seen selected
    → Best fuller required (seen ++ floors) (most_compact required selected floors)
unfolding most_compact
most_compact-Best required seen selected [] some_space h =
    subst (λ s. Best fuller required s selected) (sym (append-nil seen)) h
most_compact-Best required seen selected (g ∷ floors) some_space h =
    subst
      (λ s. Best fuller required s (most_compact required (keep fuller required selected g) floors))
      (append_assoc seen (g ∷ []) floors)
      (most_compact-Best required (seen ++ g ∷ []) _ floors some_space
        (keep-Best fuller required (fuller-Order required some_space) seen selected g h))

-- For a vehicle of a known type, LoadBalancedStrategy decides on the first of the floors with the
-- least reserved space among those with room, and on none if no floor has room.
pub load_balanced-Best :
    (vehicle : Vehicle) (floors : List Floor)
    → 0 < get_vehicle_space vehicle.type
    → (selected : Option Floor) × (load_balanced vehicle floors ≡ decision selected)
      × Best less_reserved (get_vehicle_space vehicle.type) floors selected
unfolding load_balanced
load_balanced-Best vehicle floors some_space =
    let required = get_vehicle_space vehicle.type in
    let known : (required == 0) ≡ false = ground arith in
    (
      least_reserved required none floors,
      rw known,
      least_reserved-Best required [] none floors none_seen,
    )

-- For a vehicle of a known type, CompactionStrategy decides on the first of the floors with the
-- greatest part of its capacity reserved among those with room, and on none if no floor has room.
pub compaction-Best :
    (vehicle : Vehicle) (floors : List Floor)
    → 0 < get_vehicle_space vehicle.type
    → (selected : Option Floor) × (compaction vehicle floors ≡ decision selected)
      × Best fuller (get_vehicle_space vehicle.type) floors selected
unfolding compaction
compaction-Best vehicle floors some_space =
    let required = get_vehicle_space vehicle.type in
    let known : (required == 0) ≡ false = ground arith in
    (
      most_compact required none floors,
      rw known,
      most_compact-Best required [] none floors some_space none_seen,
    )
