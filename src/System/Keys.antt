-- ===== src/System/Keys.antt =====
-- Every slot stands in the map under its own slot ID.
use lm_server.Prelude.{ℕ, zero, suc, ◌≡◌, refl, Text, text_eq_iff, [], ◌∷◌, some, All, arith}
use lm_server.Store.{lookup, put, update, delete, swap_at, Distinct}
use lm_server.Orchestrator.State.{SlotState, ContainerSlot, Slots}
use lm_server.Orchestrator.Plan.{first_slot}
use lm_server.System.Claims.{same_state-eq}

abbrev pub Keyed : Slots → Type 0
Keyed = All (λ e. e.1.slot_id ≡ e.0)

pub lookup-Keyed :
    (k : Text) (s : ContainerSlot) (m : Slots) → Keyed m → lookup k m ≡ some s → s.slot_id ≡ k
unfolding lookup
lookup-Keyed k s [] h e = cc
lookup-Keyed k s ((j, t) ∷ m) h e = ground (arith, text_eq_iff j k, lookup-Keyed k s m h.1)

pub put-Keyed : (s : ContainerSlot) (m : Slots) → Keyed m → Keyed (put s.slot_id s m)
unfolding put
put-Keyed s [] h = (refl, tt)
put-Keyed s ((j, t) ∷ m) h = ground (arith, put-Keyed s m h.1)

pub update-Keyed :
    (k : Text) (f : ContainerSlot → ContainerSlot) (m : Slots)
    → ((s : ContainerSlot) → (f s).slot_id ≡ s.slot_id)
    → Keyed m
    → Keyed (update k f m)
unfolding update
update-Keyed k f [] same h = tt
update-Keyed k f ((j, t) ∷ m) same h = ground (arith, same t, update-Keyed k f m same h.1)

pub delete-Keyed : (k : Text) (m : Slots) → Keyed m → Keyed (delete k m)
unfolding delete
delete-Keyed k [] h = tt
delete-Keyed k ((j, t) ∷ m) h = ground (arith, delete-Keyed k m h.1)

pub swap_at-Keyed : (i : ℕ) (m : Slots) → Keyed m → Keyed (swap_at i m)
unfolding swap_at
swap_at-Keyed i [] h = tt
swap_at-Keyed i (a ∷ []) h = h
swap_at-Keyed zero (a ∷ b ∷ m) h = (h.1.0, (h.0, h.1.1))
swap_at-Keyed (suc i) (a ∷ b ∷ m) h = (h.0, swap_at-Keyed i (b ∷ m) h.1)

-- The slot at which a loop of `planAcquire` stops is the one under its ID, of the profile and in the
-- state that the loop looks for.
pub first_slot-lookup :
    (st : SlotState) (name : Text) (s : ContainerSlot) (m : Slots)
    → Distinct m
    → Keyed m
    → first_slot st name m ≡ some s
    → (lookup s.slot_id m ≡ some s) × (s.state ≡ st) × (s.profile.name ≡ name)
unfolding lookup first_slot
first_slot-lookup st name s [] d h e = cc
first_slot-lookup st name s ((j, t) ∷ m) d h e = ground (
  arith,
  text_eq_iff j s.slot_id,
  text_eq_iff t.profile.name name,
  same_state-eq t.state st,
  first_slot-lookup st name s m d.1 h.1,
)
