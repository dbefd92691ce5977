-- ===== src/Core/Hub/Lists.antt =====
-- crates/huginn-core/src/event.rs: lists of which some elements were skipped.
use huginn_io.Prelude.{
  ◌≡◌, ◌⊎◌, inl, inr, refl, ap, ◌∙◌, ◌≤◌, arith, List, [], ◌∷◌, ◌++◌, length, drop,
}

module _ {Event : Type 0} where
  -- The first is what is left of the second when some of its elements are skipped.
  abbrev pub Skips : List Event → List Event → Type 0
  Skips [] ys = Unit
  Skips (x ∷ xs) [] = ⊥
  Skips (x ∷ xs) (y ∷ ys) = ((x ≡ y) × Skips xs ys) ⊎ Skips (x ∷ xs) ys

  pub Skips-append : (xs ys zs : List Event) → Skips xs ys → Skips xs (ys ++ zs)
  Skips-append [] ys zs h = tt
  Skips-append (x ∷ xs) [] zs h = absurd h
  Skips-append (x ∷ xs) (y ∷ ys) zs (inl h) = inl (h.0, Skips-append xs ys zs h.1)
  Skips-append (x ∷ xs) (y ∷ ys) zs (inr h) = inr (Skips-append (x ∷ xs) ys zs h)

  Skips-last : (e : Event) (ys : List Event) → Skips (e ∷ []) (ys ++ e ∷ [])
  Skips-last e [] = inl (refl, tt)
  Skips-last e (y ∷ ys) = inr (Skips-last e ys)

  pub Skips-both :
      (xs ys : List Event) (e : Event) → Skips xs ys → Skips (xs ++ e ∷ []) (ys ++ e ∷ [])
  Skips-both [] ys e h = Skips-last e ys
  Skips-both (x ∷ xs) [] e h = absurd h
  Skips-both (x ∷ xs) (y ∷ ys) e (inl h) = inl (h.0, Skips-both xs ys e h.1)
  Skips-both (x ∷ xs) (y ∷ ys) e (inr h) = inr (Skips-both (x ∷ xs) ys e h)

  pub drop-append : (xs ys : List Event) → drop (length xs) (xs ++ ys) ≡ ys
  drop-append [] ys = refl
  drop-append (x ∷ xs) ys = drop-append xs ys

  length-Skips : (xs ys : List Event) → Skips xs ys → length xs ≤ length ys
  length-Skips [] ys h = omega arith
  length-Skips (x ∷ xs) [] h = absurd h
  length-Skips (x ∷ xs) (y ∷ ys) (inl h) = omega (arith, length-Skips xs ys h.1)
  length-Skips (x ∷ xs) (y ∷ ys) (inr h) = omega (arith, length-Skips (x ∷ xs) ys h)

  -- Nothing is skipped if the lengths agree.
  pub Skips-all : (xs ys : List Event) → Skips xs ys → length xs ≡ length ys → xs ≡ ys
  Skips-all [] [] h e = refl
  Skips-all [] (y ∷ ys) h e = absurd (omega arith)
  Skips-all (x ∷ xs) [] h e = absurd h
  Skips-all (x ∷ xs) (y ∷ ys) (inl h) e =
      ap (λ z. z ∷ xs) h.0 ∙ ap (◌∷◌ y) (Skips-all xs ys h.1 (omega arith))
  Skips-all (x ∷ xs) (y ∷ ys) (inr h) e = absurd (omega (arith, length-Skips (x ∷ xs) ys h))
