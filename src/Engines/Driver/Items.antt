-- ===== src/Engines/Driver/Items.antt =====
-- Driving an FSM with items of evidence that the engine makes.
use network.Prelude.{
  suc, ◌≤◌, ◌≡◌, refl, sym, ◌∙◌, ap, inl, inr, true, none, some, List, [], ◌∷◌, Memᴰ, String, arith,
  eq_iff, is_filled, contains, Bool-cases,
}
use network.Core.Failures.{Result, ok}
use network.Core.Counters.Laws.{Registered}
use network.Ledger.Models.{OperatorIdentity, fsm_labels}
use network.Ledger.Recorder.{Recorder}
use network.Fsm.Evidence.{Ctx, Item, ev}
use network.Fsm.Evidence.Laws.{Evidenced, AllEvidenced, ev-Backs}
use network.Fsm.Runtime.{Transition, Machine, find_transition}
use network.Fsm.Runtime.Effects.{Accepts}
use network.Engines.Driver.{
  Environment, Engine, Action, then_do, new_evs, evs_or, kinds_of, only, drive,
}
use network.Engines.Driver.Laws.{
  Takes, Placed, Driven, drive_takes, drive-ok, Bypassed, drive_bypass,
}

-- Items with new ids: the call returns, and each kind is evidenced.
pub record Evidences {L : Type 0} (scope : String) (kinds : List String) (e : Engine L)
    (r : Result (List Item) × Engine L) : Type 0 where
  pub items : List Item
  pub after : Engine L
  pub returns : r ≡ (ok items, after)
  pub same : after.machine ≡ e.machine
  pub later : e.calls ≤ after.calls
  pub shown : AllEvidenced scope kinds (only items)

Evidenced-cons :
    (scope kind : String) (x : Item) (items : List Item)
    → Evidenced scope kind (only items)
    → Evidenced scope kind (only (x ∷ items))
Evidenced-cons scope kind x items (i, m, b) = (i, Memᴰ.tail m, b)

AllEvidenced-cons :
    (scope : String) (kinds : List String) (x : Item) (items : List Item)
    → AllEvidenced scope kinds (only items)
    → AllEvidenced scope kinds (only (x ∷ items))
AllEvidenced-cons scope [] x items h = tt
AllEvidenced-cons scope (k ∷ ks) x items h =
    (Evidenced-cons scope k x items h.0, AllEvidenced-cons scope ks x items h.1)

pub new_evs-Evidences :
    {L : Type 0} (env : Environment) (scope : String) (kinds : List String) (e : Engine L)
    → Evidences scope kinds e (new_evs env scope kinds e)
unfolding new_evs
new_evs-Evidences env scope [] e = record {
  items = [];
  after = e;
  returns = refl;
  same = refl;
  later = omega arith;
  shown = tt;
}
new_evs-Evidences env scope (k ∷ ks) e =
    let rest = new_evs-Evidences env scope ks (record e { calls = suc e.calls }) in
    let first = ev scope k (env.new_id e.calls) in
    record {
      items = first ∷ rest.items;
      after = rest.after;
      returns = rw rest.returns refl;
      same = rest.same;
      later = omega (arith, rest.later);
      shown = (
        (first, Memᴰ.head refl, ev-Backs scope k (env.new_id e.calls) (env.filled e.calls)),
        AllEvidenced-cons scope ks first rest.items rest.shown,
      );
    }

-- The items leave the machine where it was.
pub Placed-after :
    (rec : Recorder) (env : Environment) (label : String) (table : List Transition) (s : String)
    {scope : String} {kinds : List String} {e : Engine (rec.Log)}
    {r : Result (List Item) × Engine (rec.Log)} (v : Evidences scope kinds e r)
    → Placed rec env label table s e
    → Placed rec env label table s v.after
Placed-after rec env label table s {e = e} v (here, free) =
    (rw v.same here, λ n h. rw v.same (free n (omega (arith, v.later, h))))

-- A step behind a call that has returned in state s.
pub then-Driven :
    {A B : Type 0} (rec : Recorder) (env : Environment) (label : String) (table : List Transition)
    (s t : String) {a : A} {b : B} (e : Engine (rec.Log)) (r : Result A × Engine (rec.Log))
    (next : A → Action (rec.Log) B)
    → Driven rec env label table s a e r
    → ((after : Engine (rec.Log))
        → Placed rec env label table s after
        → Driven rec env label table t b after (next a after))
    → Driven rec env label table t b e (then_do r next)
then-Driven rec env label table s t {a = a} {b = b} e r next (after, ret, here, same) go =
    let (last, ret', here', same') = go after here in (last, rw ret ret', here', same' ∙ same)

module _ (rec : Recorder) (env : Environment) (takes : Takes rec env) (label : String)
    (table : List Transition) (known : contains label fsm_labels ≡ true) where
  -- An attempt with items that evidence the kinds, where that is all that the guard asks.
  pub drive_shown_takes :
      (e : Engine (rec.Log)) (r : Result (List Item) × Engine (rec.Log)) (actor : OperatorIdentity)
      (scope : String) (kinds : List String) (entity s target : String) (t : Transition)
      → Evidences scope kinds e r
      → Placed rec env label table s e
      → find_transition s target table ≡ some t
      → ((c : Ctx) → AllEvidenced scope kinds c → Accepts t c)
      → is_filled s ≡ true
      → is_filled target ≡ true
      → is_filled t.guard_id ≡ true
      → is_filled entity ≡ true
      → Driven rec env label table target tt e
          (then_do r (λ items. drive rec env actor entity target (only items)))
  drive_shown_takes e r actor scope kinds entity s target t v here found accepts fs ft fg fe =
      let (last, ret, there, same) =
        drive_takes rec env takes label table known v.after actor entity s target (only v.items) t
          (Placed-after rec env label table s v here) found (accepts _ v.shown) fs ft fg fe in
      (last, rw v.returns ret, there, same ∙ ap (λ (m : Machine (rec.Log)). m.counters) v.same)

  pub drive_new_takes :
      (e : Engine (rec.Log)) (actor : OperatorIdentity) (scope : String) (kinds : List String)
      (entity s target : String) (t : Transition)
      → Placed rec env label table s e
      → find_transition s target table ≡ some t
      → ((c : Ctx) → AllEvidenced scope kinds c → Accepts t c)
      → is_filled s ≡ true
      → is_filled target ≡ true
      → is_filled t.guard_id ≡ true
      → is_filled entity ≡ true
      → Driven rec env label table target tt e (
          then_do
            (new_evs env scope kinds e)
            (λ items. drive rec env actor entity target (only items)))
  drive_new_takes e actor scope kinds entity s target t here found accepts fs ft fg fe =
      drive_shown_takes e (new_evs env scope kinds e) actor scope kinds entity s target t
        (new_evs-Evidences env scope kinds e) here found accepts fs ft fg fe

module _ (rec : Recorder) (env : Environment) where
  -- What such an attempt has done, if it returns.
  pub drive_shown-ok :
      (e after : Engine (rec.Log)) (r : Result (List Item) × Engine (rec.Log))
      (actor : OperatorIdentity) (scope : String) (kinds : List String) (entity target : String)
      → Evidences scope kinds e r
      → Registered "gate_bypass" e.machine.counters
      → then_do r (λ items. drive rec env actor entity target (only items)) ≡ (ok tt, after)
      → ((t : Transition) × (find_transition e.machine.fsm.state target e.machine.fsm.table
            ≡ some t))
        × (after.machine.fsm ≡ record (e.machine.fsm) { state = target })
        × (after.machine.counters ≡ e.machine.counters)
  drive_shown-ok e after r actor scope kinds entity target v c h =
      let (took, f, k) =
        drive-ok rec env v.after after actor entity target (only v.items) (rw v.same c)
          (rw v.returns at h) in
      (
        (
          took.entry,
          ap (λ (m : Machine (rec.Log)). find_transition m.fsm.state target m.fsm.table)
                (sym v.same)
              ∙ took.found,
        ),
        f ∙ ap (λ (m : Machine (rec.Log)). record (m.fsm) { state = target }) v.same,
        k ∙ ap (λ (m : Machine (rec.Log)). m.counters) v.same,
      )

  pub drive_new-ok :
      (e after : Engine (rec.Log)) (actor : OperatorIdentity) (scope : String) (kinds : List String)
      (entity target : String)
      → Registered "gate_bypass" e.machine.counters
      → then_do
          (new_evs env scope kinds e)
          (λ items. drive rec env actor entity target (only items))
        ≡ (ok tt, after)
      → ((t : Transition) × (find_transition e.machine.fsm.state target e.machine.fsm.table
            ≡ some t))
        × (after.machine.fsm ≡ record (e.machine.fsm) { state = target })
        × (after.machine.counters ≡ e.machine.counters)
  drive_new-ok e after actor scope kinds entity target c h =
      drive_shown-ok e after (new_evs env scope kinds e) actor scope kinds entity target
        (new_evs-Evidences env scope kinds e) c h

  -- Such an attempt without a table entry.
  pub drive_new_bypass :
      (e : Engine (rec.Log)) (actor : OperatorIdentity) (scope : String) (kinds : List String)
      (entity target : String)
      → Registered "gate_bypass" e.machine.counters
      → find_transition e.machine.fsm.state target e.machine.fsm.table ≡ none
      → Bypassed e (
          then_do
            (new_evs env scope kinds e)
            (λ items. drive rec env actor entity target (only items)))
  drive_new_bypass e actor scope kinds entity target c n =
      let v = new_evs-Evidences env scope kinds e in
      let (y, last, ret, f, up) =
        drive_bypass rec env v.after actor entity target (only v.items) (rw v.same c)
          (rw v.same n) in
      (y, last, rw v.returns ret, f ∙ ap (λ (m : Machine (rec.Log)). m.fsm) v.same, up)

-- What follows a bypass does not run.
pub then-Bypassed :
    {L A B : Type 0} (e : Engine L) (r : Result A × Engine L) (next : A → Action L B)
    → Bypassed e r
    → Bypassed e (then_do r next)
then-Bypassed e r next (y, after, ret, f, up) = (y, after, rw ret refl, f, up)

pub evs_or-Evidences :
    {L : Type 0} (env : Environment) (scope : String) (given : List (String × String))
    (e : Engine L)
    → Evidences scope (kinds_of given) e (evs_or env scope given e)
unfolding evs_or
evs_or-Evidences env scope [] e = record {
  items = [];
  after = e;
  returns = refl;
  same = refl;
  later = omega arith;
  shown = tt;
}
evs_or-Evidences env scope ((k, i) ∷ given) e = elim (Bool-cases (is_filled i)) [
  | inl named ↦
      let rest = evs_or-Evidences env scope given e in
      record {
        items = ev scope k i ∷ rest.items;
        after = rest.after;
        returns = rw (named, rest.returns) refl;
        same = rest.same;
        later = rest.later;
        shown = (
          (ev scope k i, Memᴰ.head refl, ev-Backs scope k i (λ z. ground (arith, eq_iff i ""))),
          AllEvidenced-cons scope (kinds_of given) (ev scope k i) rest.items rest.shown,
        );
      }
  | inr empty ↦
      let rest = evs_or-Evidences env scope given (record e { calls = suc e.calls }) in
      let x = ev scope k (env.new_id e.calls) in
      record {
        items = x ∷ rest.items;
        after = rest.after;
        returns = rw (empty, rest.returns) refl;
        same = rest.same;
        later = omega (arith, rest.later);
        shown = (
          (x, Memᴰ.head refl, ev-Backs scope k (env.new_id e.calls) (env.filled e.calls)),
          AllEvidenced-cons scope (kinds_of given) x rest.items rest.shown,
        );
      }
]
