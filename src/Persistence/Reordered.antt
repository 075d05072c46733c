-- ===== src/Persistence/Reordered.antt =====
-- The order of the observations in `calculate_persistence_fingerprint` of
-- vaaet-persistence/src/vaaet_persistence/receipts.py.
use mathlib.Core.List.{Perm, Permᴰ}
use mathlib.Core.Logic.{∥∥₁_elim}
use vaaet.Prelude.{
  is_empty, all, ok, ◌>>◌, raise_if, ◌==◌, ℕ, String, ◌≡◌, refl, sym, ap, ◌∙◌, subst, ◌||◌, List,
  [], ◌∷◌, map, bind-eq-ok, ok-injective, nat_key, string_key,
}
use text.Mathlib.TextEquality.{IsScalar-prop}
use vaaet.Float.{FloatOps}
use vaaet.Persistence.Ordered.{sort_by, insert_text, sort_texts, insert_text-swap, map-sort_by}
use vaaet.Persistence.Fingerprint.{
  Json, dumps, dump_items, to_items, RawEntries, Timestamps, FingerprintError, value_error,
  canonical_mapping, canonical_rows, payload_of, calculate_persistence_fingerprint,
}

dump_items-to_items : (rows : List Json) → dump_items (to_items rows) ≡ map dumps rows
unfolding dumps to_items
dump_items-to_items [] = refl
dump_items-to_items (row ∷ rows) = ap (λ ts. dumps row ∷ ts) (dump_items-to_items rows)

-- The text of a payload is made of those of its rows.
dumps-payload_of :
    (operation : String) (rows others : List Json)
    → map dumps rows ≡ map dumps others
    → dumps (payload_of operation rows) ≡ dumps (payload_of operation others)
unfolding dumps payload_of
dumps-payload_of operation rows others same =
    rw (dump_items-to_items rows, dump_items-to_items others, same) refl

is_empty-Permᴰ : {A : Type 0} {xs ys : List A} → Permᴰ xs ys → is_empty xs ≡ is_empty ys
is_empty-Permᴰ Permᴰ.nil = refl
is_empty-Permᴰ (Permᴰ.cons e p) = refl
is_empty-Permᴰ (Permᴰ.swap d e) = refl
is_empty-Permᴰ (Permᴰ.trans p q) = is_empty-Permᴰ p ∙ is_empty-Permᴰ q

FingerprintError-set : IsSet FingerprintError
FingerprintError-set = hlevel

module _ {F T : Type 0} ⦃f : FloatOps F⦄ (pd : Timestamps T) (hex : F → String) where
  -- The sorted texts of rows.
  abbrev texts : List Json → List (List ℕ)
  texts rows = sort_texts (map dumps rows)

  split-rows :
      (o : RawEntries F T) (os : List (RawEntries F T)) (rows : List Json)
      → canonical_rows pd hex (o ∷ os) ≡ ok rows
      → (row : Json) × (rest : List Json) × (canonical_mapping pd hex o ≡ ok row)
        × (canonical_rows pd hex os ≡ ok rest)
        × (row ∷ rest ≡ rows)
  unfolding canonical_rows
  split-rows o os rows h =
      let (row, first, h') = bind-eq-ok (canonical_mapping pd hex o) _ h in
      let (rest, later, h'') = bind-eq-ok (canonical_rows pd hex os) (λ rows. ok (row ∷ rows)) h' in
      (row, rest, first, later, ok-injective _ _ h'')

  join-rows :
      (o : RawEntries F T) (os : List (RawEntries F T)) (row : Json) (rest : List Json)
      → canonical_mapping pd hex o ≡ ok row
      → canonical_rows pd hex os ≡ ok rest
      → canonical_rows pd hex (o ∷ os) ≡ ok (row ∷ rest)
  unfolding canonical_rows
  join-rows o os row rest first later = rw (first, later) refl

  -- The rows of reordered observations have the same texts once sorted.
  canonical_rows-Permᴰ :
      {xs ys : List (RawEntries F T)}
      → Permᴰ xs ys
      → (rows : List Json) → canonical_rows pd hex xs ≡ ok rows
      → (others : List Json) × (canonical_rows pd hex ys ≡ ok others) × (texts rows ≡ texts others)
  unfolding sort_by
  canonical_rows-Permᴰ Permᴰ.nil rows h = (rows, h, refl)
  canonical_rows-Permᴰ (Permᴰ.cons {a} {b} {l₁} {l₂} e p) rows h =
      let (row, rest, first, later, all) = split-rows a l₁ rows h in
      let (others, read, same) = canonical_rows-Permᴰ p rest later in
      let first' = subst (λ o. canonical_mapping pd hex o ≡ ok row) e first in
      (
        row ∷ others,
        join-rows b l₂ row others first' read,
        ap texts (sym all) ∙ ap (insert_text (dumps row)) same,
      )
  canonical_rows-Permᴰ (Permᴰ.swap {a} {b} {a'} {b'} {l} d e) rows h =
      let (x, rest, first, later, all) = split-rows a (b ∷ l) rows h in
      let (y, others, second, last, tail) = split-rows b l rest later in
      let first' = subst (λ o. canonical_mapping pd hex o ≡ ok x) d first in
      let second' = subst (λ o. canonical_mapping pd hex o ≡ ok y) e second in
      (
        y ∷ x ∷ others,
        join-rows a' (b' ∷ l) y (x ∷ others) second' (join-rows b' l x others first' last),
        ap texts (sym all)
            ∙ ap (λ r. texts (x ∷ r)) (sym tail)
            ∙ insert_text-swap (dumps x) (dumps y) (texts others),
      )
  canonical_rows-Permᴰ (Permᴰ.trans p q) rows h =
      let (middle, read, same) = canonical_rows-Permᴰ p rows h in
      let (others, read', same') = canonical_rows-Permᴰ q middle read in
      (others, read', same ∙ same')

  fingerprint-Permᴰ :
      (sha256 : List ℕ → String) (operation : String) (xs ys : List (RawEntries F T))
      (fingerprint : String)
      → Permᴰ xs ys
      → calculate_persistence_fingerprint pd hex sha256 operation xs ≡ ok fingerprint
      → calculate_persistence_fingerprint pd hex sha256 operation ys ≡ ok fingerprint
  unfolding calculate_persistence_fingerprint
  fingerprint-Permᴰ sha256 operation xs ys fingerprint p h =
      let (rows, read, hashed) =
        bind-eq-ok
          (raise_if (operation == "" || is_empty xs) value_error >> canonical_rows pd hex xs) _ h in
      let (_, given, read') =
        bind-eq-ok (raise_if _ value_error) (λ _. canonical_rows pd hex xs) read in
      let (others, written, same) = canonical_rows-Permᴰ p rows read' in
      let given' : raise_if (operation == "" || is_empty ys) value_error ≡ ok tt =
        rw (← is_empty-Permᴰ p) given in
      let sorted = map-sort_by dumps rows ∙ same ∙ sym (map-sort_by dumps others) in
      rw (given', written)
        (ap ok (ap sha256 (sym (dumps-payload_of operation _ _ sorted))) ∙ hashed)

  -- A content that has a fingerprint has the same one in any order of its observations.
  pub calculate_persistence_fingerprint-Perm :
      (sha256 : List ℕ → String) (operation : String) (xs ys : List (RawEntries F T))
      (fingerprint : String)
      → Perm xs ys
      → calculate_persistence_fingerprint pd hex sha256 operation xs ≡ ok fingerprint
      → calculate_persistence_fingerprint pd hex sha256 operation ys ≡ ok fingerprint
  calculate_persistence_fingerprint-Perm sha256 operation xs ys fingerprint p h =
      ∥∥₁_elim p (hlevel (FingerprintError-set, IsScalar-prop))
        (λ d. fingerprint-Permᴰ sha256 operation xs ys fingerprint d h)
