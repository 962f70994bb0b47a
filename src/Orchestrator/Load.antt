-- ===== src/Orchestrator/Load.antt =====
-- What the slots of a map weigh together: a slot weighs what its profile does, and nothing while it
-- is being removed. Video memory, the memory of a class and the count of a profile are such weights.
use lm_server.Prelude.{
  ℕ, zero, suc, ◌+◌, ◌≤◌, ◌≡◌, refl, pos_part, Text, text_eq, bit, [], ◌∷◌, none, some,
  if◌then◌else◌, arith,
}
use lm_server.Types.{QueueClass, same_class, ContainerProfile}
use lm_server.Store.{lookup, put, update, delete, swap_at}
use lm_server.Orchestrator.State.{ContainerSlot, Slots, same_state, removing}

abbrev pub Weight : Type 0
Weight = ContainerProfile → ℕ

abbrev pub vram : Weight
vram p = pos_part p.vram_mb

abbrev pub class_vram : QueueClass → Weight
class_vram c p = if same_class p.queue_class c then pos_part p.vram_mb else 0

abbrev pub one_of : Text → Weight
one_of name p = bit (text_eq p.name name)

module _ (g : Weight) where
  abbrev pub weigh : ContainerSlot → ℕ
  weigh s = if same_state s.state removing then 0 else g s.profile

  unfoldable pub load : Slots → ℕ
  load [] = 0
  load ((k, s) ∷ m) = weigh s + load m

  pub load-update :
      (k : Text) (f : ContainerSlot → ContainerSlot) (s : ContainerSlot) (m : Slots)
      → lookup k m ≡ some s
      → load (update k f m) + weigh s ≡ load m + weigh (f s)
  unfolding load lookup update
  load-update k f s [] e = cc
  load-update k f s ((j, t) ∷ m) e = ground (arith, load-update k f s m)

  pub load-put :
      (k : Text) (s : ContainerSlot) (m : Slots)
      → lookup k m ≡ none
      → load (put k s m) ≡ load m + weigh s
  unfolding load lookup put
  load-put k s [] e = omega arith
  load-put k s ((j, t) ∷ m) e = ground (arith, load-put k s m)

  pub load-delete : (k : Text) (m : Slots) → load (delete k m) ≤ load m
  unfolding load delete
  load-delete k [] = omega arith
  load-delete k ((j, t) ∷ m) = ground (arith, load-delete k m)

  pub load-swap_at : (i : ℕ) (m : Slots) → load (swap_at i m) ≡ load m
  unfolding load swap_at
  load-swap_at i [] = refl
  load-swap_at i (a ∷ []) = refl
  load-swap_at zero ((k, v) ∷ (l, w) ∷ m) = omega arith
  load-swap_at (suc i) ((k, v) ∷ (l, w) ∷ m) = omega (arith, load-swap_at i ((l, w) ∷ m))
