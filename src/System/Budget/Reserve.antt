-- ===== src/System/Budget/Reserve.antt =====
-- The slot that `planAcquire` reserves fits the budgets.
use lm_server.Prelude.{
  ℕ, suc, ◌+◌, ◌^◌, ◌<◌, ◌≤◌, ◌≡◌, Text, text_eq, text_eq_iff, subst, [], ◌∷◌, true, pos_part,
  arith, Bool-cases, inl, inr,
}
use lm_server.Types.{QueueClass, same_class, ContainerProfile}
use lm_server.Store.{put}
use lm_server.Orchestrator.State.{Slots, Orchestrator, ContainerSlot}
use lm_server.Orchestrator.SlotId.{slot_id, next_seq}
use lm_server.Orchestrator.Load.{Weight, load, vram, class_vram, one_of, load-put}
use lm_server.Orchestrator.Plan.{budget_of, reserve, fresh_slot, can_launch_locked}
use lm_server.Orchestrator.Plan.Launch.{IsNonneg, AllNonneg, Fits, can_launch-Fits}
use lm_server.System.Moves.{IsStore, unused}
use lm_server.System.Budget.{IsWithin, IsCapped}

put-AllNonneg :
    (k : Text) (s : ContainerSlot) (m : Slots)
    → IsNonneg s.profile
    → AllNonneg m
    → AllNonneg (put k s m)
unfolding put
put-AllNonneg k s [] n h = (n, tt)
put-AllNonneg k s ((j, t) ∷ m) n h = ground (arith, put-AllNonneg k s m n h.1)

same_class-eq : (c d : QueueClass) → same_class c d ≡ true → c ≡ d
same_class-eq c d e = ground arith

-- A launch that `canLaunchLocked` allows is within the budgets.
pub reserve-IsWithin :
    (most : Text → ℕ) (o : Orchestrator) (p : ContainerProfile) (now stamp : ℕ)
    → IsStore o
    → suc o.slot_seq < 2 ^ 64
    → IsCapped most o.total_vram_mb p
    → IsWithin most o
    → can_launch_locked o p ≡ true
    → IsWithin most (reserve o p now stamp).0
unfolding reserve
reserve-IsWithin most o p now stamp h small capped w e = record {
  nonneg = put-AllNonneg id slot o.slots capped.0.nonneg w.nonneg;
  total = omega (arith, added vram, f.total);
  of_class = λ c has. elim (Bool-cases (same_class p.queue_class c)) [
    | inl e ↦
        let own : 0 < pos_part (budget_of o c)
            → load (class_vram c) o.slots + pos_part p.vram_mb ≤ pos_part (budget_of o c) =
          subst
            (λ d.
              0 < pos_part (budget_of o d)
              → load (class_vram d) o.slots + pos_part p.vram_mb ≤ pos_part (budget_of o d))
            (same_class-eq p.queue_class c e) f.of_class in
        ground (arith, added (class_vram c), own has)
    | inr e ↦ ground (arith, added (class_vram c), w.of_class c has)
  ];
  number = λ name. elim (Bool-cases (text_eq p.name name)) [
    | inl e ↦
        let same = (text_eq_iff p.name name).0 e in
        let below : load (one_of p.name) o.slots + 1 ≤ most p.name =
          omega (arith, f.number, capped.1) in
        let own = subst (λ n. load (one_of n) o.slots + 1 ≤ most n) same below in
        ground (arith, added (one_of name), own)
    | inr e ↦ ground (arith, added (one_of name), w.number name)
  ];
}
  where
    f : Fits o p
    f = (can_launch-Fits o p capped.0 w.nonneg w.total).0 e

    id : Text
    id = slot_id (next_seq o.slot_seq)

    slot : ContainerSlot
    slot = fresh_slot o p now stamp

    added : (g : Weight) → load g (put id slot o.slots) ≡ load g o.slots + g p
    added g = load-put g id slot o.slots (unused o p now stamp h small)
