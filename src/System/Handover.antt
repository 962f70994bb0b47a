-- ===== src/System/Handover.antt =====
-- A slot changes hands: what a step does to the slot of the task that takes it.
use lm_server.Prelude.{ℕ, ◌≤◌, ◌≡◌, refl, Text, true, some, arith, List}
use lm_server.Store.{lookup, update, delete}
use lm_server.Orchestrator.State.{SlotState, removing, ContainerSlot, Orchestrator}
use lm_server.Orchestrator.Slots.{destroy_slot}
use lm_server.System.{Task, goroutine}
use lm_server.System.Claims.{claim, claims, total_claims, holds, held, is_owned}
use lm_server.System.Keys.{lookup-Keyed}
use lm_server.System.Moves.{IsStore, Moves, no_claim, write-Moves, delete-Moves}

-- The same move, its claims written in another way.
pub as_claims :
    {o o' : Orchestrator} {b a : Text → SlotState → ℕ} (b' a' : Text → SlotState → ℕ)
    → Moves o o' b a
    → ((k : Text) (st : SlotState) → b k st ≡ b' k st)
    → ((k : Text) (st : SlotState) → a k st ≡ a' k st)
    → Moves o o' b' a'
as_claims b' a' m hb ha = record {
  store = m.store;
  balance = λ k st. omega (arith, m.balance k st, hb k st, ha k st);
}

-- A step of `t` from `o` with the outcome `r` is in order.
abbrev pub Follows : Orchestrator → Task → Orchestrator × List Task → Type 0
Follows o t r = Moves o r.0 (claims t) (total_claims r.1)

-- The task owns what it claims.
abbrev pub Mine : Orchestrator → Task → Type 0
Mine o t = (k : Text) (st : SlotState) → claims t k st ≤ holds (lookup k o.slots) st

module _ (o : Orchestrator) (h : IsStore o) where
  module _ (id : Text) (st : SlotState) (own : is_owned st ≡ true)
      (mine : claim id st id st ≤ holds (lookup id o.slots) st) where
    pub write-Follows :
        (f : ContainerSlot → ContainerSlot) (new : SlotState)
        → ((t : ContainerSlot) → (f t).slot_id ≡ t.slot_id)
        → ((t : ContainerSlot) → (f t).state ≡ new)
        → Moves o (record o { slots = update id f o.slots }) (claim id st) (claim id new)
    write-Follows f new same becomes =
        let (s, found, e) = held (lookup id o.slots) id st own mine in
        as_claims _ _ (write-Moves o id s h found f same) (λ k st'. rw e refl)
          (λ k st'. rw (becomes s) refl)

    pub delete-Follows : Moves o (record o { slots = delete id o.slots }) (claim id st) no_claim
    delete-Follows =
        let (s, found, e) = held (lookup id o.slots) id st own mine in
        as_claims _ _ (delete-Moves o id s h found) (λ k st'. rw e refl) (λ k st'. refl)

    -- What `destroySlot` does to a slot in the hands of the caller: the goroutine takes it over.
    pub destroy-Follows :
        Moves o
          (destroy_slot o id).0
          (claim id st)
          (total_claims (goroutine id (destroy_slot o id).1))
    unfolding destroy_slot goroutine
    destroy-Follows =
        let (s, found, e) = held (lookup id o.slots) id st own mine in
        rw (found, destroy_slot)
          (as_claims _ _
            (write-Follows (λ t. record t { state = removing }) removing (λ t. refl) (λ t. refl))
            (λ k st'. refl) (λ k st'. omega arith))

    pub keyed_here : (s : ContainerSlot) → lookup id o.slots ≡ some s → s.slot_id ≡ id
    keyed_here s e = lookup-Keyed id s o.slots h.keyed e
