-- ===== src/System/Sound.antt =====
-- What holds of the orchestrator and its tasks after any steps in any order.
use lm_server.Prelude.{
  ℕ, zero, suc, ◌+◌, ◌^◌, ◌<◌, ◌≤◌, ◌≡◌, refl, Text, length, All, [], ◌∷◌, ◌++◌, Option, none, some,
  arith, List,
}
use lm_server.Types.{ContainerProfile, Config}
use lm_server.Store.{lookup}
use lm_server.Store.Laws.{lookup-swap_at, swap_at-Distinct}
use lm_server.Orchestrator.State.{SlotState, Orchestrator, Lease, GoError}
use lm_server.Orchestrator.Select.{new, select_profile}
use lm_server.Orchestrator.SlotId.{slot_id, next_seq}
use lm_server.Orchestrator.Plan.{reserve}
use lm_server.Orchestrator.Plan.Outcome.{plan_cases}
use lm_server.Orchestrator.Slots.{
  begin_launch, begin_resume, finish_launch, abort_launch, finish_resume, destroy_slot, mark_ready,
  release, finish_destroy,
}
use lm_server.Orchestrator.Maintenance.{
  MaintenanceAction, finish_action, collect_maintenance_actions,
}
use lm_server.System.{
  Task, acquiring, launching, starting_up, resume_planned, unpausing, serving, destroying,
  maintaining, Event, lock, answered, failed, canceled, released, advance, follow, served, begun,
  goroutine, System, Choice, arrive, pick, reorder, advance_at, arrived, step, run, start,
}
use lm_server.System.Claims.{total_claims, holds, total_claims-append}
use lm_server.System.Keys.{swap_at-Keyed}
use lm_server.System.Moves.{IsStore, Moves}
use lm_server.System.Sweep.{collect-AreActions}
use lm_server.System.Ownership.{IsOrderly, advance-Follows}

finish_action-seq :
    (o : Orchestrator) (a : MaintenanceAction) (err : Option GoError)
    → (finish_action o a err).slot_seq ≡ o.slot_seq
unfolding finish_action
finish_action-seq o a err = ground arith

advance-seq :
    (o : Orchestrator) (t : Task) (e : Event) → (advance o t e).0.slot_seq ≤ suc o.slot_seq
unfolding advance finish_launch abort_launch finish_resume destroy_slot release mark_ready
    finish_destroy collect_maintenance_actions reserve next_seq
advance-seq o (acquiring p) (lock now stamp) =
    plan_cases (λ r. r.0.slot_seq ≤ suc o.slot_seq) o p now stamp (λ _ _. omega arith)
      (λ _ _ _. omega arith) (λ _ _ _. omega arith) (λ _ _ _. omega arith)
advance-seq o (starting_up p id) (answered l now) = ground arith
advance-seq o (unpausing p id) (answered l now) = ground arith
advance-seq o (unpausing p id) (failed e) = ground arith
advance-seq o (serving l) (released err now) = ground arith
advance-seq o (maintaining (a ∷ rest)) (answered l now) = omega (arith, finish_action-seq o a none)
advance-seq o (maintaining (a ∷ rest)) (failed e) = omega (arith, finish_action-seq o a (some e))
advance-seq o t e = ground arith

begun-IsOrderly :
    (p : ContainerProfile) (t : Task) {A : Type 0} (x : Option A)
    → IsOrderly t
    → IsOrderly (begun t (acquiring p) x)
unfolding begun
begun-IsOrderly p t (some a) h = h
begun-IsOrderly p t none h = tt

served-IsOrderly : (p : ContainerProfile) (x : Option Lease) → IsOrderly (served p x)
unfolding served
served-IsOrderly p (some l) = tt
served-IsOrderly p none = tt

goroutine-IsOrderly : (id : Text) (c : Option Text) → All IsOrderly (goroutine id c)
unfolding goroutine
goroutine-IsOrderly id none = tt
goroutine-IsOrderly id (some c) = (tt, tt)

advance-IsOrderly :
    (o : Orchestrator) (t : Task) (e : Event) → IsOrderly t → All IsOrderly (advance o t e).1
unfolding advance follow served collect_maintenance_actions reserve
advance-IsOrderly o (acquiring p) (lock now stamp) h =
    plan_cases (λ r. All IsOrderly (follow p r.1 ∷ [])) o p now stamp (λ _ _. (tt, tt))
      (λ _ _ _. (tt, tt)) (λ _ _ _. (tt, tt)) (λ _ _ _. (tt, tt))
advance-IsOrderly o (acquiring p) canceled h = tt
advance-IsOrderly o (launching p id) (lock now stamp) h =
    (begun-IsOrderly p (starting_up p id) (begin_launch o id) tt, tt)
advance-IsOrderly o (resume_planned p id) (lock now stamp) h =
    (begun-IsOrderly p (unpausing p id) (begin_resume o id) tt, tt)
advance-IsOrderly o (starting_up p id) (answered l now) h = (served-IsOrderly p _, tt)
advance-IsOrderly o (starting_up p id) (failed e) h = (tt, tt)
advance-IsOrderly o (unpausing p id) (answered l now) h = (served-IsOrderly p _, tt)
advance-IsOrderly o (unpausing p id) (failed e) h = (tt, goroutine-IsOrderly id _)
advance-IsOrderly o (serving l) (released err now) h = goroutine-IsOrderly l.slot_id _
advance-IsOrderly o (destroying id c) (lock now stamp) h = tt
advance-IsOrderly o (maintaining []) (lock now stamp) h = (collect-AreActions now o.slots, tt)
advance-IsOrderly o (maintaining (a ∷ rest)) (answered l now) h = (h.1, tt)
advance-IsOrderly o (maintaining (a ∷ rest)) (failed e) h = (h.1, tt)
advance-IsOrderly o t e h = (h, tt)

-- The map is in order, and every slot that must have an owner has one, and only one.
pub record IsSound (sys : System) : Type 0 where
  pub store : IsStore sys.orchestrator
  pub owned :
      (k : Text) (st : SlotState)
      → total_claims sys.tasks k st ≡ holds (lookup k sys.orchestrator.slots) st
  pub orderly : All IsOrderly sys.tasks

All-append : (ts us : List Task) → All IsOrderly ts → All IsOrderly us → All IsOrderly (ts ++ us)
All-append [] us h h' = h'
All-append (t ∷ ts) us h h' = (h.0, All-append ts us h.1 h')

module _ (o : Orchestrator) (h : IsStore o) (small : suc o.slot_seq < 2 ^ 64) where
  advance_at-Follows :
      (i : ℕ) (e : Event) (ts : List Task)
      → ((k : Text) (st : SlotState) → total_claims ts k st ≤ holds (lookup k o.slots) st)
      → All IsOrderly ts
      → Moves o (advance_at o i e ts).0 (total_claims ts) (total_claims (advance_at o i e ts).1)
        × All IsOrderly (advance_at o i e ts).1
  unfolding advance_at
  advance_at-Follows i e [] own ord = (record { store = h; balance = λ k st. refl }, tt)
  advance_at-Follows zero e (t ∷ ts) own ord =
      let (o', new_tasks) = advance o t e in
      let m = advance-Follows o h t e small (λ k st. omega (arith, own k st)) ord.0 in
      (
        record {
          store = m.store;
          balance = λ k st. omega (arith, m.balance k st, total_claims-append new_tasks ts k st);
        },
        All-append new_tasks ts (advance-IsOrderly o t e ord.0) ord.1,
      )
  advance_at-Follows (suc i) e (t ∷ ts) own ord =
      let (m, ord') = advance_at-Follows i e ts (λ k st. omega (arith, own k st)) ord.1 in
      (record { store = m.store; balance = λ k st. omega (arith, m.balance k st) }, (ord.0, ord'))

pub advance_at-seq :
    (o : Orchestrator) (i : ℕ) (e : Event) (ts : List Task)
    → (advance_at o i e ts).0.slot_seq ≤ suc o.slot_seq
unfolding advance_at
advance_at-seq o i e [] = omega arith
advance_at-seq o zero e (t ∷ ts) = advance-seq o t e
advance_at-seq o (suc i) e (t ∷ ts) = advance_at-seq o i e ts

pub step-seq :
    (sys : System) (c : Choice) → (step sys c).orchestrator.slot_seq ≤ suc sys.orchestrator.slot_seq
unfolding step
step-seq sys (arrive meta) = omega arith
step-seq sys (pick i e) = advance_at-seq sys.orchestrator i e sys.tasks
step-seq sys (reorder i) = omega arith

arrived-Sound :
    (sys : System) (x : Option ContainerProfile)
    → IsSound sys
    → IsSound (record sys { tasks = arrived x sys.tasks })
unfolding arrived
arrived-Sound sys none h = h
arrived-Sound sys (some p) h = record {
  store = h.store;
  owned = λ k st. omega (arith, h.owned k st);
  orderly = (tt, h.orderly);
}

-- Every choice keeps the system sound.
pub step-IsSound :
    (sys : System) (c : Choice)
    → suc sys.orchestrator.slot_seq < 2 ^ 64
    → IsSound sys
    → IsSound (step sys c)
unfolding step
step-IsSound sys (arrive meta) small h = arrived-Sound sys (select_profile sys.orchestrator meta) h
step-IsSound sys (pick i e) small h =
    let (m, ord) =
      advance_at-Follows sys.orchestrator h.store small i e sys.tasks
        (λ k st. omega (arith, h.owned k st)) h.orderly in
    record {
      store = m.store;
      owned = λ k st. omega (arith, m.balance k st, h.owned k st);
      orderly = ord;
    }
step-IsSound sys (reorder i) small h =
    let d = h.store.distinct in
    let m = sys.orchestrator.slots in
    record {
      store = record {
        distinct = swap_at-Distinct i m d;
        keyed = swap_at-Keyed i m h.store.keyed;
        fresh = λ n lt bound. rw (lookup-swap_at i (slot_id n) m d) (h.store.fresh n lt bound);
      };
      owned = λ k st. rw (lookup-swap_at i k m d) (h.owned k st);
      orderly = h.orderly;
    }

run-IsSound :
    (sys : System) (cs : List Choice)
    → sys.orchestrator.slot_seq + length cs < 2 ^ 64
    → IsSound sys
    → IsSound (run sys cs)
unfolding run
run-IsSound sys [] small h = h
run-IsSound sys (c ∷ cs) small h =
    run-IsSound (step sys c) cs (omega (arith, step-seq sys c)) (step-IsSound sys c (omega arith) h)

pub start-IsSound : (cfg : Config) → IsSound (start cfg)
unfolding start new lookup
start-IsSound cfg = record {
  store = record { distinct = tt; keyed = tt; fresh = λ n lt bound. refl };
  owned = λ k st. refl;
  orderly = (tt, tt);
}

pub run-start-IsSound :
    (cfg : Config) (cs : List Choice) → length cs < 2 ^ 64 → IsSound (run (start cfg) cs)
unfolding start new
run-start-IsSound cfg cs small = run-IsSound (start cfg) cs (omega arith) (start-IsSound cfg)
