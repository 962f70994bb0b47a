-- ===== src/Orchestrator/Plan/Outcome.antt =====
-- The four ways out of `planAcquire`, as one rule of case analysis.
use lm_server.Prelude.{ℕ, ◌≡◌, true, false, none, some, Option-cases, Bool-cases, inl, inr}
use lm_server.Types.{ContainerProfile}
use lm_server.Orchestrator.State.{
  ready, busy, paused, resuming, ContainerSlot, Orchestrator, new_lease_locked, AcquirePlan,
  granted, resume, wait,
}
use lm_server.Orchestrator.Plan.{
  first_slot, can_launch_locked, touch, write_slot, reserve, plan_acquire,
}

pub plan_cases {ℓ} :
    (P : Orchestrator × AcquirePlan → Type ℓ) (o : Orchestrator) (p : ContainerProfile)
    (now stamp : ℕ)
    → ((s : ContainerSlot)
        → first_slot ready p.name o.slots ≡ some s
        → P (
          write_slot o s.slot_id (touch busy now),
          granted (new_lease_locked (touch busy now s)),
        ))
    → ((s : ContainerSlot)
        → first_slot ready p.name o.slots ≡ none
        → first_slot paused p.name o.slots ≡ some s
        → P (write_slot o s.slot_id (touch resuming now), resume s.slot_id))
    → (first_slot ready p.name o.slots ≡ none
        → first_slot paused p.name o.slots ≡ none
        → can_launch_locked o p ≡ true
        → P (reserve o p now stamp))
    → (first_slot ready p.name o.slots ≡ none
        → first_slot paused p.name o.slots ≡ none
        → can_launch_locked o p ≡ false
        → P (o, wait))
    → P (plan_acquire o p now stamp)
plan_cases P o p now stamp take_ready take_paused launches waits =
    elim (Option-cases (first_slot ready p.name o.slots)) [
      | inr (s, e) ↦ unfold plan_acquire in rw (e, plan_acquire) (take_ready s e)
      | inl e ↦ elim (Option-cases (first_slot paused p.name o.slots)) [
        | inr (s, e') ↦ unfold plan_acquire in rw (e, e', plan_acquire) (take_paused s e e')
        | inl e' ↦ elim (Bool-cases (can_launch_locked o p)) [
          | inl c ↦ unfold plan_acquire in rw (e, e', c, plan_acquire) (launches e e' c)
          | inr c ↦ unfold plan_acquire in rw (e, e', c, plan_acquire) (waits e e' c)
        ]
      ]
    ]
