-- ===== src/Engines/Recovery/Excuses.antt =====
-- engines/recovery_engine.py: the evidence that lets a recovery leave a level.
use network.Prelude.{
  ℕ, ◌≡◌, refl, ap, Bool, true, false, ◌==◌, Option, none, some, List, [], ◌∷◌, Memᴰ, String,
  if◌then◌else◌, ◌≢◌,
}
use network.Fsm.Evidence.{Ctx}
use network.Fsm.Evidence.Laws.{AllEvidenced}
use network.Fsm.Recovery.{scope, kinds_5_2, g_5_2_step}
use network.Engines.Capability.{
  CapabilityEngine, RecoveryStatus, supported, not_supported, unknown_status, recovery_lookup,
}
use network.Engines.Driver.{kinds_of}
use network.Engines.Recovery.{
  attempt_kind, level_mechanism, excuse_for, excuse_by, excuses, unnamed,
}
use network.Engines.Recovery.Laws.{g_5_2-accepts}

-- The matrix has an excuse for the level.
abbrev pub Excused : CapabilityEngine → String → ℕ → Type 0
Excused capability platform n = excuses capability platform n ≢ []

-- Kinds that let a level be left.
abbrev pub Lets : ℕ → List String → Type 0
Lets n kinds = (c : Ctx) → AllEvidenced scope kinds c → (g_5_2_step n c).accepted ≡ true

pub kinds-unnamed : (kinds : List String) → kinds_of (unnamed kinds) ≡ kinds
kinds-unnamed [] = refl
kinds-unnamed (k ∷ ks) = ap (λ xs. k ∷ xs) (kinds-unnamed ks)

pub attempt-Lets : (n : ℕ) → Lets n (attempt_kind n ∷ [])
attempt-Lets n c v = g_5_2-accepts n c (attempt_kind n) (Memᴰ.head refl) v.0

if-Lets :
    (n : ℕ) (kind : String) (b : Bool)
    → Memᴰ kind (kinds_5_2 n)
    → (if b then kind ∷ [] else []) ≢ []
    → Lets n (if b then kind ∷ [] else [])
if-Lets n kind true m h c v = g_5_2-accepts n c kind m v.0
if-Lets n kind false m h c v = absurd (h refl)

excuse_for-Lets : (n : ℕ) (x : RecoveryStatus) → excuse_for n x ≢ [] → Lets n (excuse_for n x)
unfolding excuse_for
excuse_for-Lets n not_supported h c v = g_5_2-accepts n c _ (Memᴰ.tail (Memᴰ.head refl)) v.0
excuse_for-Lets n supported h c v = absurd (h refl)
excuse_for-Lets n unknown_status h c v =
    if-Lets n _ (n == 3) (Memᴰ.tail (Memᴰ.tail (Memᴰ.head refl))) h c v

excuse_by-Lets :
    (capability : CapabilityEngine) (platform : String) (n : ℕ) (o : Option String)
    → excuse_by capability platform n o ≢ []
    → Lets n (excuse_by capability platform n o)
unfolding excuse_by
excuse_by-Lets capability platform n none h = absurd (h refl)
excuse_by-Lets capability platform n (some m) h =
    excuse_for-Lets n (recovery_lookup capability platform m).status h

pub excuses-Lets :
    (capability : CapabilityEngine) (platform : String) (n : ℕ)
    → Excused capability platform n
    → Lets n (excuses capability platform n)
unfolding excuses
excuses-Lets capability platform n = excuse_by-Lets capability platform n (level_mechanism n)
