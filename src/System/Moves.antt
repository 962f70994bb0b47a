-- ===== src/System/Moves.antt =====
-- The three ways in which a step changes the map of slots, and how the claims on slots follow.
use lm_server.Prelude.{ℕ, suc, ◌+◌, ◌^◌, ◌<◌, ◌≡◌, refl, Text, text_eq_iff, none, some, arith}
use lm_server.Types.{ContainerProfile}
use lm_server.Store.{lookup, put, Distinct}
use lm_server.Store.Laws.{
  lookup-put, lookup-update, lookup-delete, put-Distinct, update-Distinct, delete-Distinct,
}
use lm_server.Orchestrator.State.{SlotState, starting, ContainerSlot, Orchestrator}
use lm_server.Orchestrator.SlotId.{slot_id, next_seq, slot_id-injective}
use lm_server.Orchestrator.Plan.{write_slot, fresh_slot, reserve}
use lm_server.Orchestrator.Slots.{delete_slot}
use lm_server.System.Claims.{claim, holds}
use lm_server.System.Keys.{Keyed, update-Keyed, put-Keyed, delete-Keyed}

-- The map holds each slot once, under its own ID, and no ID that is still to come.
pub record IsStore (o : Orchestrator) : Type 0 where
  pub distinct : Distinct o.slots
  pub keyed : Keyed o.slots
  pub fresh : (n : ℕ) → o.slot_seq < n → n < 2 ^ 64 → lookup (slot_id n) o.slots ≡ none

-- From o to o' the owned slots change as the claims do, from `before` to `after`.
pub record Moves (o o' : Orchestrator) (before after : Text → SlotState → ℕ) : Type 0 where
  pub store : IsStore o'
  pub balance :
      (k : Text) (st : SlotState)
      → after k st + holds (lookup k o.slots) st ≡ before k st + holds (lookup k o'.slots) st

abbrev pub no_claim : Text → SlotState → ℕ
no_claim k st = 0

pub stay-Moves : (o : Orchestrator) (c : Text → SlotState → ℕ) → IsStore o → Moves o o c c
stay-Moves o c h = record { store = h; balance = λ k st. refl }

module _ (o : Orchestrator) (id : Text) (s : ContainerSlot) (h : IsStore o)
    (e : lookup id o.slots ≡ some s) where
  pub write-Moves :
      (f : ContainerSlot → ContainerSlot)
      → ((t : ContainerSlot) → (f t).slot_id ≡ t.slot_id)
      → Moves o (write_slot o id f) (claim id s.state) (claim id (f s).state)
  write-Moves f same = record {
    store = record {
      distinct = update-Distinct id f o.slots h.distinct;
      keyed = update-Keyed id f o.slots same h.keyed;
      fresh = λ n lt small. ground (
        arith,
        lookup-update id (slot_id n) f o.slots,
        h.fresh n lt small,
        text_eq_iff id (slot_id n),
      );
    };
    balance = λ k st. ground (arith, lookup-update id k f o.slots, text_eq_iff id k);
  }

  pub delete-Moves : Moves o (delete_slot o id) (claim id s.state) no_claim
  delete-Moves = record {
    store = record {
      distinct = delete-Distinct id o.slots h.distinct;
      keyed = delete-Keyed id o.slots h.keyed;
      fresh = λ n lt small.
          ground (arith, lookup-delete id (slot_id n) o.slots h.distinct, h.fresh n lt small);
    };
    balance = λ k st. ground (arith, lookup-delete id k o.slots h.distinct, text_eq_iff id k);
  }

next_seq-suc : (n : ℕ) → suc n < 2 ^ 64 → next_seq n ≡ suc n
unfolding next_seq
next_seq-suc n h = omega arith

module _ (o : Orchestrator) (p : ContainerProfile) (now stamp : ℕ) (h : IsStore o)
    (small : suc o.slot_seq < 2 ^ 64) where
  pub unused : lookup (slot_id (next_seq o.slot_seq)) o.slots ≡ none
  unused =
      let e = next_seq-suc o.slot_seq small in
      h.fresh (next_seq o.slot_seq) (omega arith) (omega arith)

  still_fresh :
      (n : ℕ)
      → next_seq o.slot_seq < n
      → n < 2 ^ 64
      → lookup (slot_id n) (put (slot_id (next_seq o.slot_seq)) (fresh_slot o p now stamp) o.slots)
        ≡ none
  still_fresh n lt bound =
      let next = next_seq o.slot_seq in
      let e = next_seq-suc o.slot_seq small in
      ground (
        arith,
        lookup-put (slot_id next) (slot_id n) (fresh_slot o p now stamp) o.slots,
        text_eq_iff (slot_id next) (slot_id n),
        slot_id-injective next n,
        h.fresh n,
      )

  pub reserve-Moves :
      Moves o (reserve o p now stamp).0 no_claim (claim (slot_id (next_seq o.slot_seq)) starting)
  unfolding reserve
  reserve-Moves = record {
    store = record {
      distinct = put-Distinct _ _ o.slots h.distinct;
      keyed = put-Keyed (fresh_slot o p now stamp) o.slots h.keyed;
      fresh = still_fresh;
    };
    balance = λ k st.
        let id = slot_id (next_seq o.slot_seq) in
        ground
          (arith, lookup-put id k (fresh_slot o p now stamp) o.slots, text_eq_iff id k, unused);
  }
