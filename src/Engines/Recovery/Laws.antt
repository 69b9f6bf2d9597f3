-- ===== src/Engines/Recovery/Laws.antt =====
-- fsm/recovery_fsm.py and engines/recovery_engine.py: the rungs of the ladder.
use network.Prelude.{
  ℕ, zero, suc, ◌≡◌, refl, sym, ◌≢◌, inl, inr, true, false, ◌==◌, leb, some, List, [], ◌∷◌, Memᴰ,
  String, str_eq, arith, eq_iff, is_filled, if◌then◌else◌, Bool-cases, or_else,
}
use network.Fsm.Evidence.{Ctx, evidence_of, pass_if_any}
use network.Fsm.Evidence.Laws.{Evidenced, has_evidence-ne_nil}
use network.Fsm.Runtime.{Transition, find_transition, edge}
use network.Fsm.Recovery.{
  scope, kinds_5_2, first_evidence, g_5_2_step, g_5_4_into_l5, g_5_3_recovered, recovered,
  recovery_transitions,
}
use network.Engines.Recovery.{level_state}

-- A rung below L7 that is left by guard 5.2.
pub rung :
    (n : ℕ)
    → leb 7 n ≡ false
    → (n == 4) ≡ false
    → find_transition (level_state n) (level_state (suc n)) recovery_transitions
      ≡ some (edge (level_state n) (level_state (suc n)) "5.2" (g_5_2_step n))
unfolding find_transition recovery_transitions
rung zero h k = refl
rung (suc zero) h k = refl
rung (suc (suc zero)) h k = refl
rung (suc (suc (suc zero))) h k = refl
rung (suc (suc (suc (suc zero)))) h k = absurd (cc)
rung (suc (suc (suc (suc (suc zero))))) h k = refl
rung (suc (suc (suc (suc (suc (suc zero)))))) h k = refl
rung (suc (suc (suc (suc (suc (suc (suc n))))))) h k = absurd (ground arith)

-- The states from which the table enters a target.
sources : String → List Transition → List String
sources target [] = []
sources target (t ∷ ts) =
    let rest = sources target ts in if str_eq t.to_state target then t.from_state ∷ rest else rest

find-sources :
    (s target : String) (ts : List Transition) {t : Transition}
    → find_transition s target ts ≡ some t
    → Memᴰ s (sources target ts)
unfolding find_transition sources
find-sources s target [] h = absurd (ground arith)
find-sources s target (x ∷ ts) {t = t} h = elim (Bool-cases (str_eq x.to_state target)) [
  | inr other ↦ rw other (
      find-sources s target ts {t = t} (elim (Bool-cases (str_eq x.from_state s)) [
        | inl y ↦ rw (y, other) at h
        | inr n ↦ rw n at h
      ]))
  | inl same ↦ elim (Bool-cases (str_eq x.from_state s)) [
    | inl y ↦ rw same (Memᴰ.head (sym ((eq_iff x.from_state s).0 y)))
    | inr n ↦ rw same (Memᴰ.tail (find-sources s target ts {t = t} (rw n at h)))
  ]
]

alone : (s x : String) → Memᴰ s (x ∷ []) → s ≡ x
alone s x (Memᴰ.head e) = e
alone s x (Memᴰ.tail m) = elim m [ ]

sources-rung :
    (n : ℕ)
    → leb 7 n ≡ false
    → sources (level_state (suc n)) recovery_transitions ≡ level_state n ∷ []
unfolding sources recovery_transitions
sources-rung zero h = refl
sources-rung (suc zero) h = refl
sources-rung (suc (suc zero)) h = refl
sources-rung (suc (suc (suc zero))) h = refl
sources-rung (suc (suc (suc (suc zero)))) h = refl
sources-rung (suc (suc (suc (suc (suc zero))))) h = refl
sources-rung (suc (suc (suc (suc (suc (suc zero)))))) h = refl
sources-rung (suc (suc (suc (suc (suc (suc (suc n))))))) h = absurd (ground arith)

-- The level below is the only state from which the next one is entered.
pub rung-from :
    (n : ℕ) (s : String) {t : Transition}
    → leb 7 n ≡ false
    → find_transition s (level_state (suc n)) recovery_transitions ≡ some t
    → s ≡ level_state n
rung-from n s {t = t} h k =
    alone s (level_state n) (
      rw (sources-rung n h) at
        (find-sources s (level_state (suc n)) recovery_transitions {t = t} k))

pub level_state-filled : (n : ℕ) → leb 8 n ≡ false → is_filled (level_state n) ≡ true
level_state-filled zero h = refl
level_state-filled (suc zero) h = refl
level_state-filled (suc (suc zero)) h = refl
level_state-filled (suc (suc (suc zero))) h = refl
level_state-filled (suc (suc (suc (suc zero)))) h = refl
level_state-filled (suc (suc (suc (suc (suc zero))))) h = refl
level_state-filled (suc (suc (suc (suc (suc (suc zero)))))) h = refl
level_state-filled (suc (suc (suc (suc (suc (suc (suc zero))))))) h = refl
level_state-filled (suc (suc (suc (suc (suc (suc (suc (suc n)))))))) h = absurd (ground arith)

or_else-nil : (xs ys : List String) → or_else xs ys ≡ [] → (xs ≡ []) × (ys ≡ [])
or_else-nil [] ys h = (refl, h)
or_else-nil (x ∷ xs) ys h = absurd (ground arith)

first_evidence-filled :
    (ctx : Ctx) (kind : String) (kinds : List String)
    → Memᴰ kind kinds
    → Evidenced scope kind ctx
    → first_evidence ctx kinds ≢ []
unfolding first_evidence
first_evidence-filled ctx kind [] m v = elim m [ ]
first_evidence-filled ctx kind (k ∷ ks) (Memᴰ.head e) v =
    λ h. (has_evidence-ne_nil ctx scope kind).1 v (rw e (or_else-nil _ _ h).0)
first_evidence-filled ctx kind (k ∷ ks) (Memᴰ.tail m) v =
    λ h. first_evidence-filled ctx kind ks m v (or_else-nil (evidence_of ctx scope k) _ h).1

-- Guard 5.2 accepts any one of its three kinds.
pub g_5_2-accepts :
    (n : ℕ) (ctx : Ctx) (kind : String)
    → Memᴰ kind (kinds_5_2 n)
    → Evidenced scope kind ctx
    → (g_5_2_step n ctx).accepted ≡ true
unfolding g_5_2_step pass_if_any
g_5_2-accepts n ctx kind m v = ground (arith, first_evidence-filled ctx kind (kinds_5_2 n) m v)

-- The guard into the destructive tier accepts one of the three kinds with a human decision.
pub g_5_4-accepts :
    (ctx : Ctx) (kind : String)
    → Memᴰ kind (kinds_5_2 4)
    → Evidenced scope kind ctx
    → Evidenced scope "gate:DESTRUCTIVE_human_decision" ctx
    → (g_5_4_into_l5 ctx).accepted ≡ true
unfolding g_5_4_into_l5
g_5_4-accepts ctx kind m v d = ground (
  arith,
  g_5_2-accepts 4 ctx kind m v,
  (has_evidence-ne_nil ctx scope "gate:DESTRUCTIVE_human_decision").1 d,
)

pub rung-recovered :
    (n : ℕ)
    → leb 8 n ≡ false
    → find_transition (level_state n) recovered recovery_transitions
      ≡ some (edge (level_state n) recovered "5.3" g_5_3_recovered)
unfolding find_transition recovery_transitions
rung-recovered zero h = refl
rung-recovered (suc zero) h = refl
rung-recovered (suc (suc zero)) h = refl
rung-recovered (suc (suc (suc zero))) h = refl
rung-recovered (suc (suc (suc (suc zero)))) h = refl
rung-recovered (suc (suc (suc (suc (suc zero))))) h = refl
rung-recovered (suc (suc (suc (suc (suc (suc zero)))))) h = refl
rung-recovered (suc (suc (suc (suc (suc (suc (suc zero))))))) h = refl
rung-recovered (suc (suc (suc (suc (suc (suc (suc (suc n)))))))) h = absurd (ground arith)
