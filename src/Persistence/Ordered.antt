-- ===== src/Persistence/Ordered.antt =====
-- Python's `sorted` by a key, as a stable sort by insertion, and its order of texts by code points.
use vaaet.Prelude.{
  ltb, if◌then◌else◌, Bool-cases, ℕ, ◌≡◌, refl, sym, ap, ◌∙◌, inl, inr, Bool, true, false, List, [],
  ◌∷◌, map, arith,
}

module _ {ℓ κ} {A : Type ℓ} {K : Type κ} (le : K → K → Bool) (key : A → K) where
  unfoldable pub insert_by : A → List A → List A
  insert_by x [] = x ∷ []
  insert_by x (y ∷ ys) =
      let rest = insert_by x ys in if le (key x) (key y) then x ∷ y ∷ ys else y ∷ rest

  unfoldable pub sort_by : List A → List A
  sort_by [] = []
  sort_by (x ∷ xs) = insert_by x (sort_by xs)

unfoldable pub text_le : List ℕ → List ℕ → Bool
text_le [] ds = true
text_le (c ∷ cs) [] = false
text_le (c ∷ cs) (d ∷ ds) =
    let rest = text_le cs ds in if ltb c d then true else if ltb d c then false else rest

pub text_le_total : (cs ds : List ℕ) → text_le cs ds ≡ false → text_le ds cs ≡ true
unfolding text_le
text_le_total [] ds h = cc
text_le_total (c ∷ cs) [] h = refl
text_le_total (c ∷ cs) (d ∷ ds) h = ground (arith, text_le_total cs ds)

pub text_le_antisym : (cs ds : List ℕ) → text_le cs ds ≡ true → text_le ds cs ≡ true → cs ≡ ds
unfolding text_le
text_le_antisym [] [] h k = refl
text_le_antisym [] (d ∷ ds) h k = cc
text_le_antisym (c ∷ cs) [] h k = cc
text_le_antisym (c ∷ cs) (d ∷ ds) h k =
    let same : c ≡ d = ground arith in
    let (first, second) : (text_le cs ds ≡ true) × (text_le ds cs ≡ true) =
      (ground arith, ground arith) in
    let rest = text_le_antisym cs ds first second in cc

pub text_le_trans :
    (bs cs ds : List ℕ) → text_le bs cs ≡ true → text_le cs ds ≡ true → text_le bs ds ≡ true
unfolding text_le
text_le_trans [] cs ds h k = refl
text_le_trans (b ∷ bs) [] ds h k = cc
text_le_trans (b ∷ bs) (c ∷ cs) [] h k = cc
text_le_trans (b ∷ bs) (c ∷ cs) (d ∷ ds) h k = ground (arith, text_le_trans bs cs ds)

-- The order in which two texts are inserted does not matter.
abbrev pub insert_text : List ℕ → List (List ℕ) → List (List ℕ)
insert_text = insert_by text_le (λ k. k)

abbrev pub sort_texts : List (List ℕ) → List (List ℕ)
sort_texts = sort_by text_le (λ k. k)

insert_text-below :
    (x y : List ℕ) (ts : List (List ℕ))
    → text_le x y ≡ true
    → text_le y x ≡ false
    → insert_text x (insert_text y ts) ≡ insert_text y (insert_text x ts)
unfolding insert_by
insert_text-below x y [] h k = rw (h, k) refl
insert_text-below x y (t ∷ ts) h k = elim (Bool-cases (text_le y t)) [
  | inl before ↦ rw (before, h, text_le_trans x y t h before, k, before) refl
  | inr after ↦ elim (Bool-cases (text_le x t)) [
    | inl first ↦ rw (after, first, k, after) refl
    | inr last ↦ rw (after, last, after) (ap (λ l. t ∷ l) (insert_text-below x y ts h k))
  ]
]

pub insert_text-swap :
    (x y : List ℕ) (ts : List (List ℕ))
    → insert_text x (insert_text y ts) ≡ insert_text y (insert_text x ts)
insert_text-swap x y ts = elim (Bool-cases (text_le x y)) [
  | inl le ↦ elim (Bool-cases (text_le y x)) [
    | inl ge ↦
        let same = text_le_antisym x y le ge in
        ap (λ z. insert_text z (insert_text y ts)) same
        ∙ ap (λ z. insert_text y (insert_text z ts)) (sym same)
    | inr gt ↦ insert_text-below x y ts le gt
  ]
  | inr gt ↦ sym (insert_text-below y x ts (text_le_total x y gt) gt)
]

-- Sorting by a key sorts the keys.
module _ {ℓ} {A : Type ℓ} (key : A → List ℕ) where
  map-insert_by :
      (x : A) (xs : List A)
      → map key (insert_by text_le key x xs) ≡ insert_text (key x) (map key xs)
  unfolding insert_by
  map-insert_by x [] = refl
  map-insert_by x (y ∷ ys) = elim (Bool-cases (text_le (key x) (key y))) [
    | inl le ↦ rw le refl
    | inr gt ↦ rw gt (ap (λ l. key y ∷ l) (map-insert_by x ys))
  ]

  pub map-sort_by : (xs : List A) → map key (sort_by text_le key xs) ≡ sort_texts (map key xs)
  unfolding sort_by
  map-sort_by [] = refl
  map-sort_by (x ∷ xs) =
      map-insert_by x (sort_by text_le key xs) ∙ ap (insert_text (key x)) (map-sort_by xs)
