-- ===== src/Prelude/Dict.antt =====
-- Python's `dict` with text keys, in insertion order.
use network.Prelude.{
  ◌≡◌, refl, Option, none, some, List, [], ◌∷◌, String, str_eq, eq_iff, arith, if◌then◌else◌,
}

abbrev pub Dict {ℓ} : Type ℓ → Type ℓ
Dict V = List (String × V)

module _ {ℓ} {V : Type ℓ} where
  unfoldable pub lookup : String → Dict V → Option V
  lookup key ((at, v) ∷ rest) = if str_eq at key then some v else lookup key rest
  lookup key [] = none

  unfoldable pub insert : String → V → Dict V → Dict V
  insert key v ((at, old) ∷ rest) =
      if str_eq at key then (at, v) ∷ rest else (at, old) ∷ insert key v rest
  insert key v [] = (key, v) ∷ []

  pub lookup-insert :
      (key other : String) (v : V) (dict : Dict V)
      → lookup other (insert key v dict) ≡ (if str_eq key other then some v else lookup other dict)
  unfolding lookup insert
  lookup-insert key other v ((at, old) ∷ rest) =
      ground
        (arith, lookup-insert key other v rest, eq_iff at other, eq_iff at key, eq_iff key other)
  lookup-insert key other v [] = refl

  abbrev pub keys : Dict V → List String
  keys [] = []
  keys ((k, v) ∷ m) = k ∷ keys m

  -- A write to a key that is there keeps the keys and their order.
  pub keys-insert :
      (k : String) (v old : V) (m : Dict V) → lookup k m ≡ some old → keys (insert k v m) ≡ keys m
  unfolding lookup insert
  keys-insert k v old [] h = cc
  keys-insert k v old ((i, w) ∷ m) h = ground (arith, keys-insert k v old m)
