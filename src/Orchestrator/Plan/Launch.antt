-- ===== src/Orchestrator/Plan/Launch.antt =====
-- What `canLaunchLocked` guarantees: a launch keeps every budget.
use lm_server.Prelude.{
  ℕ, ◌+◌, ◌^◌, ◌≤◌, ◌<◌, ◌≡◌, ◌↔◌, refl, ℤ, pos, negsuc, pos_part, neg_part, add64, add64_exact,
  All, Text, true, [], ◌∷◌, arith,
}
use lm_server.Types.{QueueClass, ContainerProfile}
use lm_server.Orchestrator.State.{Slots, Orchestrator}
use lm_server.Orchestrator.Load.{load, vram, class_vram, one_of}
use lm_server.Orchestrator.Plan.{
  total_slots_for_profile_locked, usage_from, budget_of, can_launch_locked,
}

-- No profile asks for a negative amount of memory.
abbrev pub IsNonneg : ContainerProfile → Type 0
IsNonneg p = neg_part p.vram_mb ≡ 0

abbrev pub AllNonneg : Slots → Type 0
AllNonneg = All (λ e. IsNonneg e.1.profile)

pub total_slots-load :
    (name : Text) (m : Slots) → total_slots_for_profile_locked name m ≡ load (one_of name) m
unfolding total_slots_for_profile_locked load
total_slots-load name [] = refl
total_slots-load name ((k, s) ∷ m) = ground (arith, total_slots-load name m)

add64_nonneg :
    (a : ℕ) (v : ℤ)
    → neg_part v ≡ 0
    → a + pos_part v < 2 ^ 63
    → add64 (pos a) v ≡ pos (a + pos_part v)
add64_nonneg a (pos n) e h = add64_exact a n h
add64_nonneg a (negsuc n) e h = absurd (omega arith)

pub usage_from-load :
    (c : QueueClass) (a b : ℕ) (m : Slots)
    → AllNonneg m
    → a + load vram m < 2 ^ 63
    → b + load (class_vram c) m < 2 ^ 63
    → usage_from c (pos a) (pos b) m ≡ (pos (a + load vram m), pos (b + load (class_vram c) m))
unfolding usage_from load
usage_from-load c a b [] n ha hb = ground arith
usage_from-load c a b ((k, s) ∷ m) n ha hb =
    let v = pos_part s.profile.vram_mb in
    ground (
      arith,
      add64_nonneg a s.profile.vram_mb n.0,
      add64_nonneg b s.profile.vram_mb n.0,
      usage_from-load c a b m n.1,
      usage_from-load c (a + v) b m n.1,
      usage_from-load c (a + v) (b + v) m n.1,
    )

class-le-total : (c : QueueClass) (m : Slots) → load (class_vram c) m ≤ load vram m
unfolding load
class-le-total c [] = omega arith
class-le-total c ((k, s) ∷ m) = ground (arith, class-le-total c m)

-- The sizes that a profile and the machine may have: one more container never leaves 64 bits.
pub record IsSane (total : ℤ) (p : ContainerProfile) : Type 0 where
  pub nonneg : IsNonneg p
  pub total_nonneg : neg_part total ≡ 0
  pub in_range : pos_part total + pos_part p.vram_mb < 2 ^ 63

-- What `canLaunchLocked` has checked when it answers yes: the new container fits the machine, the
-- budget of its class and the number of containers of its profile.
pub record Fits (o : Orchestrator) (p : ContainerProfile) : Type 0 where
  pub total : load vram o.slots + pos_part p.vram_mb ≤ pos_part o.total_vram_mb
  pub of_class :
      0 < pos_part (budget_of o p.queue_class)
      → load (class_vram p.queue_class) o.slots + pos_part p.vram_mb
        ≤ pos_part (budget_of o p.queue_class)
  pub number : load (one_of p.name) o.slots + 1 ≤ pos_part p.max_containers

-- With sane sizes, and as long as the slots fit the machine, `canLaunchLocked` answers yes exactly
-- when the new container fits the machine, its class and its profile's number of containers.
pub can_launch-Fits :
    (o : Orchestrator) (p : ContainerProfile)
    → IsSane o.total_vram_mb p
    → AllNonneg o.slots
    → load vram o.slots ≤ pos_part o.total_vram_mb
    → (can_launch_locked o p ≡ true) ↔ Fits o p
unfolding can_launch_locked
can_launch-Fits o p s n w =
    let c = p.queue_class in
    let exact = usage_from-load c 0 0 o.slots n in
    let count = total_slots-load p.name o.slots in
    let class_le = class-le-total c o.slots in
    let sum = add64_nonneg (load vram o.slots) p.vram_mb s.nonneg in
    let class_sum = add64_nonneg (load (class_vram c) o.slots) p.vram_mb s.nonneg in
    (
      (λ e. ground (arith, count, class_le, exact, sum, class_sum)),
      (λ f. ground (arith, count, class_le, exact, sum, class_sum)),
    )
