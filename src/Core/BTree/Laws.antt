-- ===== src/Core/BTree/Laws.antt =====
-- The map laws of the sorted association list.
use huginn_io.Prelude.{
  ◌≡◌, refl, true, false, List, [], ◌∷◌, some, arith, Text, text_eq, text_eq_iff, if◌then◌else◌,
  All, Bool-cases, inl, inr, ◌≢◌,
}
use huginn_io.Core.BTree.{text_lt, lookup, insert}

pub text_lt_trans : (a b c : Text) → text_lt a b ≡ true → text_lt b c ≡ true → text_lt a c ≡ true
unfolding text_lt
text_lt_trans [] [] c h k = cc
text_lt_trans [] (y ∷ b) [] h k = cc
text_lt_trans [] (y ∷ b) (z ∷ c) h k = refl
text_lt_trans (x ∷ a) [] c h k = cc
text_lt_trans (x ∷ a) (y ∷ b) [] h k = cc
text_lt_trans (x ∷ a) (y ∷ b) (z ∷ c) h k = ground (arith, text_lt_trans a b c)

pub text_lt_irrefl : (a : Text) → text_lt a a ≡ false
unfolding text_lt
text_lt_irrefl [] = refl
text_lt_irrefl (x ∷ a) = ground (arith, text_lt_irrefl a)

pub text_lt_total : (a b : Text) → text_lt a b ≡ false → a ≢ b → text_lt b a ≡ true
unfolding text_lt
text_lt_total [] [] h ne = absurd (ne refl)
text_lt_total [] (y ∷ b) h ne = cc
text_lt_total (x ∷ a) [] h ne = refl
text_lt_total (x ∷ a) (y ∷ b) h ne = ground (arith, text_lt_total a b)

module _ {ℓ} {V : Type ℓ} where
  -- The key `k` stands before every key of the map.
  abbrev pub Below : Text → List (Text × V) → Type 0
  Below k [] = Unit
  Below k ((j, v) ∷ m) = text_lt k j ≡ true

  abbrev pub IsSorted : List (Text × V) → Type 0
  IsSorted [] = Unit
  IsSorted ((j, v) ∷ m) = Below j m × IsSorted m

  pub lookup-insert :
      (set get : Text) (new : V) (m : List (Text × V))
      → lookup get (insert set new m) ≡ (if text_eq set get then some new else lookup get m)
  unfolding lookup insert
  lookup-insert set get new [] = refl
  lookup-insert set get new ((key, old) ∷ m) =
      let ih = lookup-insert set get new m in
      ground (arith, ih, text_eq_iff key set, text_eq_iff key get, text_eq_iff set get)

  insert-Below :
      (j k : Text) (v : V) (m : List (Text × V))
      → text_lt j k ≡ true
      → Below j m
      → Below j (insert k v m)
  unfolding insert
  insert-Below j k v [] h b = h
  insert-Below j k v ((i, w) ∷ m) h b = ground arith

  pub insert-IsSorted :
      (k : Text) (v : V) (m : List (Text × V)) → IsSorted m → IsSorted (insert k v m)
  unfolding insert
  insert-IsSorted k v [] s = (tt, tt)
  insert-IsSorted k v ((i, w) ∷ m) s =
      ground
        (arith, text_eq_iff i k, text_lt_total k i, insert-Below i k v m, insert-IsSorted k v m s.1)

  pub All-insert :
      (P : Text × V → Type 0) (k : Text) (v : V) (m : List (Text × V))
      → P (k, v)
      → All P m
      → All P (insert k v m)
  unfolding insert
  All-insert P k v [] h a = (h, tt)
  All-insert P k v ((j, w) ∷ m) h a = elim (Bool-cases (text_eq j k)) [
    | inl same ↦ rw same (h, a.1)
    | inr other ↦ elim (Bool-cases (text_lt k j)) [
      | inl before ↦ rw (other, before) (h, a)
      | inr behind ↦ rw (other, behind) (a.0, All-insert P k v m h a.1)
    ]
  ]
