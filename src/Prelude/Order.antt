-- ===== src/Prelude/Order.antt =====
-- Python's `sorted` on texts: by code points, as `compare` orders them.
use Prim.Native.Nat.{Ordering}
use Prim.Native.String.{compare}
use network.Prelude.{
  eq_iff, String, str_eq, Bool, true, false, ◌||◌, ◌≡◌, refl, ◌≢◌, List, [], ◌∷◌, arith, contains,
  count, length, if◌then◌else◌,
}

abbrev pub text_le : String → String → Bool
text_le s t = elim (compare s t) [ Ordering.gt ↦ false | _ ↦ true ]

insert : String → List String → List String
insert s [] = s ∷ []
insert s (x ∷ xs) = if text_le s x then s ∷ x ∷ xs else x ∷ insert s xs

unfoldable pub sorted : List String → List String
unfolding insert
sorted [] = []
sorted (x ∷ xs) = insert x (sorted xs)

contains-insert :
    (s x : String) (xs : List String) → contains s (insert x xs) ≡ (str_eq s x || contains s xs)
unfolding insert contains
contains-insert s x [] = refl
contains-insert s x (y ∷ ys) = ground (arith, contains-insert s x ys)

-- Sorting keeps the members.
pub contains-sorted : (s : String) (xs : List String) → contains s (sorted xs) ≡ contains s xs
unfolding sorted contains
contains-sorted s [] = refl
contains-sorted s (x ∷ xs) = ground (arith, contains-insert s x (sorted xs), contains-sorted s xs)

insert-ne-nil : (x : String) (xs : List String) → insert x xs ≢ []
unfolding insert
insert-ne-nil x [] h = cc
insert-ne-nil x (y ∷ ys) h = ground arith

pub sorted-nil : (xs : List String) → sorted xs ≡ [] → xs ≡ []
unfolding sorted
sorted-nil [] h = refl
sorted-nil (x ∷ xs) h = absurd (insert-ne-nil x (sorted xs) h)

-- The members of a set: each text once.
unfoldable pub unique : List String → List String
unique [] = []
unique (s ∷ ss) = let rest = unique ss in if contains s rest then rest else s ∷ rest

pub contains-unique : (i : String) (xs : List String) → contains i (unique xs) ≡ contains i xs
unfolding unique contains
contains-unique i [] = refl
contains-unique i (x ∷ xs) = ground (arith, contains-unique i xs, eq_iff i x)

count-insert : (s x : String) (xs : List String) → count s (insert x xs) ≡ count s (x ∷ xs)
unfolding insert
count-insert s x [] = refl
count-insert s x (y ∷ ys) = ground (arith, count-insert s x ys)

-- Sorting keeps how often each member comes, and the length.
pub count-sorted : (s : String) (xs : List String) → count s (sorted xs) ≡ count s xs
unfolding sorted
count-sorted s [] = refl
count-sorted s (x ∷ xs) = omega (arith, count-insert s x (sorted xs), count-sorted s xs)

length-insert : (x : String) (xs : List String) → length (insert x xs) ≡ length (x ∷ xs)
unfolding insert
length-insert x [] = refl
length-insert x (y ∷ ys) = ground (arith, length-insert x ys)

pub length-sorted : (xs : List String) → length (sorted xs) ≡ length xs
unfolding sorted
length-sorted [] = refl
length-sorted (x ∷ xs) = omega (arith, length-insert x (sorted xs), length-sorted xs)
