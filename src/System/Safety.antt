-- ===== src/System/Safety.antt =====
-- What a request can rely on, whatever the other tasks do and in whatever order.
use lm_server.Prelude.{
  ℕ, zero, suc, ◌+◌, ◌^◌, ◌<◌, ◌≤◌, ◌≡◌, refl, ap, Text, length, [], ◌∷◌, some, arith, List,
  get_elem?, sym, true, text_eq_refl, text_eq_iff,
}
use lm_server.Types.{ContainerProfile, Config}
use lm_server.Store.{lookup}
use lm_server.Orchestrator.State.{
  SlotState, busy, starting, resuming, Orchestrator, Lease, ContainerSlot,
}
use lm_server.Orchestrator.Slots.{
  begin_launch, begin_resume, finish_launch, finish_resume, LaunchedContainer,
}
use lm_server.System.{
  Task, launching, starting_up, resume_planned, unpausing, serving, System, Choice, run, start,
}
use lm_server.System.Claims.{is_owned, claims, total_claims, held, holds-le-one}
use lm_server.Orchestrator.State.{new_lease_locked}
use lm_server.Orchestrator.Slots.{launched_slot}
use lm_server.Orchestrator.Plan.{touch}
use lm_server.System.Keys.{lookup-Keyed}
use lm_server.System.Moves.{IsStore}
use lm_server.System.Requests.{begin_launch-some, begin_resume-some}
use native.Mathlib.Decide.{dec_lt}
use lm_server.System.Handover.{Mine}
use lm_server.System.Sound.{IsSound, run-start-IsSound}

abbrev pub reachable : Config → List Choice → System
reachable cfg cs = run (start cfg) cs

claims-le-total :
    (ts : List Task) (i : ℕ) (t : Task) (k : Text) (st : SlotState)
    → get_elem? ts i ≡ some t
    → claims t k st ≤ total_claims ts k st
claims-le-total [] i t k st e = cc
claims-le-total (u ∷ ts) zero t k st e =
    let same : u ≡ t = cc in omega (arith, ap (λ x. claims x k st) same)
claims-le-total (u ∷ ts) (suc i) t k st e = omega (arith, claims-le-total ts i t k st e)

two_claims-le-total :
    (ts : List Task) (i j : ℕ) (t u : Task) (k : Text) (st : SlotState)
    → i < j
    → get_elem? ts i ≡ some t
    → get_elem? ts j ≡ some u
    → claims t k st + claims u k st ≤ total_claims ts k st
two_claims-le-total [] i j t u k st lt e e' = cc
two_claims-le-total (v ∷ ts) zero (suc j) t u k st lt e e' =
    let same : v ≡ t = cc in
    omega (arith, ap (λ x. claims x k st) same, claims-le-total ts j u k st e')
two_claims-le-total (v ∷ ts) (suc i) (suc j) t u k st lt e e' =
    omega (arith, two_claims-le-total ts i j t u k st (omega arith) e e')
two_claims-le-total (v ∷ ts) i zero t u k st lt e e' = absurd (omega arith)

claimant :
    (ts : List Task) (k : Text) (st : SlotState)
    → 0 < total_claims ts k st
    → (i : ℕ) × (t : Task) × (get_elem? ts i ≡ some t) × (0 < claims t k st)
claimant [] k st h = absurd (omega arith)
claimant (t ∷ ts) k st h = elim (dec_lt 0 (claims t k st)) [
  | yes p ↦ (0, t, refl, p)
  | no p ↦ let (i, u, e, q) = claimant ts k st (omega arith) in (suc i, u, e, q)
]

-- What the task finds when it takes the lock again after Docker has worked: the slot that it has
-- reserved, so that none of the errors "no longer available" and "vanished" is returned.
abbrev pub FindsSlot : Orchestrator → Task → Type 0
FindsSlot o (launching p id) = (r : ContainerProfile × Text) × (begin_launch o id ≡ some r)
FindsSlot o (starting_up p id) =
    (l : LaunchedContainer) (now : ℕ)
    → (lease : Lease) × ((finish_launch o id l now).1 ≡ some lease) × (lease.slot_id ≡ id)
FindsSlot o (resume_planned p id) = (r : Text × Text) × (begin_resume o id ≡ some r)
FindsSlot o (unpausing p id) =
    (now : ℕ) → (lease : Lease) × ((finish_resume o id now).1 ≡ some lease) × (lease.slot_id ≡ id)
FindsSlot o _ = Unit

module _ (o : Orchestrator) (h : IsStore o) where
  kept_launch :
      (p : ContainerProfile) (id : Text)
      → Mine o (starting_up p id)
      → FindsSlot o (starting_up p id)
  unfolding finish_launch new_lease_locked
  kept_launch p id own l now =
      let (s, found, _) = held (lookup id o.slots) id starting refl (own id starting) in
      (
        new_lease_locked (launched_slot l now s),
        rw (found, finish_launch) refl,
        lookup-Keyed id s o.slots h.keyed found,
      )

  kept_resume :
      (p : ContainerProfile) (id : Text) → Mine o (unpausing p id) → FindsSlot o (unpausing p id)
  unfolding finish_resume new_lease_locked
  kept_resume p id own now =
      let (s, found, _) = held (lookup id o.slots) id resuming refl (own id resuming) in
      (
        new_lease_locked (touch busy now s),
        rw (found, finish_resume) refl,
        lookup-Keyed id s o.slots h.keyed found,
      )

  kept : (t : Task) → Mine o t → FindsSlot o t
  kept (launching p id) own = begin_launch-some o h p id own
  kept (starting_up p id) own = kept_launch p id own
  kept (resume_planned p id) own = begin_resume-some o h p id own
  kept (unpausing p id) own = kept_resume p id own
  kept t own = tt

module _ (cfg : Config) (cs : List Choice) (small : length cs < 2 ^ 64) where
  pub sound : IsSound (reachable cfg cs)
  sound = run-start-IsSound cfg cs small

  pub mine :
      (i : ℕ) (t : Task)
      → get_elem? (reachable cfg cs).tasks i ≡ some t
      → Mine (reachable cfg cs).orchestrator t
  mine i t e k st =
      omega (arith, sound.owned k st, claims-le-total (reachable cfg cs).tasks i t k st e)

  not_before :
      (i j : ℕ) (l l' : Lease)
      → get_elem? (reachable cfg cs).tasks i ≡ some (serving l)
      → get_elem? (reachable cfg cs).tasks j ≡ some (serving l')
      → l.slot_id ≡ l'.slot_id
      → ¬ (i < j)
  not_before i j l l' e e' same lt =
      let two =
        two_claims-le-total (reachable cfg cs).tasks i j (serving l) (serving l') l.slot_id busy lt
          e e' in
      ground (
        arith,
        two,
        sound.owned l.slot_id busy,
        holds-le-one (lookup l.slot_id (reachable cfg cs).orchestrator.slots) busy,
        text_eq_refl l.slot_id,
        text_eq_iff l'.slot_id l.slot_id,
      )

  -- After any steps in any order (fewer than 2^64), two requests never hold leases on one slot: two
  -- tasks that serve under leases with the same slot ID are the same task.
  pub lease_exclusive :
      (i j : ℕ) (l l' : Lease)
      → get_elem? (reachable cfg cs).tasks i ≡ some (serving l)
      → get_elem? (reachable cfg cs).tasks j ≡ some (serving l')
      → l.slot_id ≡ l'.slot_id
      → i ≡ j
  lease_exclusive i j l l' e e' same =
      omega (arith, not_before i j l l' e e' same, not_before j i l' l e' e (sym same))

  -- After any steps in any order (fewer than 2^64), a slot that is starting, busy, pausing, resuming or
  -- being removed has a task that claims it in that state (a launch, a lease that has not been
  -- released, a resumption, maintenance, or the goroutine of `destroySlot`), and it is claimed just
  -- once in that state. A lease that nobody receives from the dispatcher's channel is not released,
  -- and counts.
  pub owner_exists :
      (k : Text) (s : ContainerSlot)
      → lookup k (reachable cfg cs).orchestrator.slots ≡ some s
      → is_owned s.state ≡ true
      → (i : ℕ) × (t : Task) × (get_elem? (reachable cfg cs).tasks i ≡ some t)
        × (0 < claims t k s.state)
        × (total_claims (reachable cfg cs).tasks k s.state ≡ 1)
  owner_exists k s e own =
      let one : total_claims (reachable cfg cs).tasks k s.state ≡ 1 =
        ground (arith, sound.owned k s.state) in
      let (i, t, at, claimed) = claimant (reachable cfg cs).tasks k s.state (omega (arith, one)) in
      (i, t, at, claimed, one)

  -- After any steps in any order (fewer than 2^64), a task that has reserved a slot finds it again:
  -- `launchReservedSlot` and `resumeReservedSlot` pass their check of the slot, and once Docker has
  -- answered they return a lease on that slot. None of their four errors about a slot that is gone
  -- is ever returned.
  pub reservation_kept :
      (i : ℕ) (t : Task)
      → get_elem? (reachable cfg cs).tasks i ≡ some t
      → FindsSlot (reachable cfg cs).orchestrator t
  reservation_kept i t e = kept (reachable cfg cs).orchestrator sound.store t (mine i t e)
