-- ===== src/Timestamps/Normal.antt =====
-- Normalization of a series of instants, twice and in part.
use vaaet.Prelude.{
  get_elem?, All, ok, err, raise_if, succeeds, ℕ, suc, ◌≡◌, refl, ap, subst, inl, inr, true, false,
  Option, none, some, List, [], ◌∷◌, map, arith, bind-eq-ok, Result-cases, take,
}
use vaaet.Timestamps.{
  Pandas, TimeError, not_a_timestamp, cannot_be_normalized, or_raise, to_utc, normalize_timestamp,
  normalize_timestamp_series,
}

-- What pandas documents of a converted instant: it has a zone, and is a valid timestamp that
-- conversion to the same zone leaves as it is.
pub record IsUtc {V S : Type 0} (pd : Pandas V S) (t : S) : Type 0 where
  pub read : pd.timestamp (pd.as_value t) ≡ some t
  pub valid : pd.isna t ≡ false
  pub aware : pd.is_naive t ≡ false
  pub kept : pd.tz_convert t ≡ some t

module _ {V S : Type 0} (pd : Pandas V S) where
  or_raise-ok : (x : Option S) (e : TimeError) (t : S) → or_raise pd x e ≡ ok t → x ≡ some t
  or_raise-ok none e t h = cc
  or_raise-ok (some x) e t h = cc

  normalize_timestamp-converted :
      (value : V) (t : S)
      → normalize_timestamp pd value ≡ ok t
      → (aware : S) × (pd.tz_convert aware ≡ some t)
  unfolding normalize_timestamp to_utc
  normalize_timestamp-converted value t h =
      let (read, _, h1) = bind-eq-ok (or_raise pd (pd.timestamp value) not_a_timestamp) _ h in
      let (_, _, h2) = bind-eq-ok (raise_if (pd.isna read) not_a_timestamp) _ h1 in
      let (aware, _, h3) =
        bind-eq-ok _ (λ a. or_raise pd (pd.tz_convert a) cannot_be_normalized) h2 in
      (aware, or_raise-ok (pd.tz_convert aware) cannot_be_normalized t h3)

  normalize_timestamp-utc : (t : S) → IsUtc pd t → normalize_timestamp pd (pd.as_value t) ≡ ok t
  unfolding normalize_timestamp to_utc
  normalize_timestamp-utc t u =
      let read = u.read in
      let valid = u.valid in let aware = u.aware in let kept = u.kept in ground arith

  -- A timestamp of a series under the label that it has, as a value.
  abbrev pub as_item : {L : Type 0} → L × S → L × V
  as_item item = (item.0, pd.as_value item.1)

  normalize_timestamp_series-utc :
      {L : Type 0}
      → (ts : List (L × S)) → All (λ item. IsUtc pd item.1) ts
      → normalize_timestamp_series pd (map as_item ts) ≡ ok ts
  unfolding normalize_timestamp_series
  normalize_timestamp_series-utc [] h = refl
  normalize_timestamp_series-utc ((label, t) ∷ ts) h =
      let head = normalize_timestamp-utc t h.0 in
      let tail = normalize_timestamp_series-utc ts h.1 in ground arith

  normalize_timestamp_series-All :
      {L : Type 0}
      → (items : List (L × V)) (ts : List (L × S))
      → ((aware t : S) → pd.tz_convert aware ≡ some t → IsUtc pd t)
      → normalize_timestamp_series pd items ≡ ok ts
      → All (λ item. IsUtc pd item.1) ts
  unfolding normalize_timestamp_series
  normalize_timestamp_series-All [] [] utc h = tt
  normalize_timestamp_series-All [] (t ∷ ts) utc h = absurd (cc)
  normalize_timestamp_series-All ((label, value) ∷ items) ts utc h =
      elim (Result-cases (normalize_timestamp pd value)) [
        | inl (e, raised) ↦ absurd (ground arith)
        | inr (t, is_t) ↦ elim (Result-cases (normalize_timestamp_series pd items)) [
          | inl (e, raised) ↦ absurd (ground arith)
          | inr (rest, is_rest) ↦
              let (aware, converted) = normalize_timestamp-converted value t is_t in
              let whole : (label, t) ∷ rest ≡ ts = ground arith in
              subst (All (λ item. IsUtc pd item.1)) whole
                (utc aware t converted, normalize_timestamp_series-All items rest utc is_rest)
        ]
      ]

  -- A series that was normalized is normalized again to itself, its labels included, where what
  -- pandas converts to UTC is a valid timestamp with a zone that converts to itself.
  pub normalize_timestamp_series_idem :
      {L : Type 0}
      → (items : List (L × V)) (ts : List (L × S))
      → ((aware t : S) → pd.tz_convert aware ≡ some t → IsUtc pd t)
      → normalize_timestamp_series pd items ≡ ok ts
      → normalize_timestamp_series pd (map as_item ts) ≡ ok ts
  normalize_timestamp_series_idem items ts utc h =
      normalize_timestamp_series-utc ts (normalize_timestamp_series-All items ts utc h)

  -- A series that cannot be normalized is refused with the label of its first value that cannot:
  -- every value before it can.
  pub normalize_timestamp_series_label :
      {L : Type 0}
      → (label : L) (items : List (L × V)) → normalize_timestamp_series pd items ≡ err label
      → (i : ℕ) × (value : V) × (get_elem? items i ≡ some (label, value))
        × (succeeds (normalize_timestamp pd value) ≡ false)
        × All (λ item. succeeds (normalize_timestamp pd item.1) ≡ true) (take i items)
  unfolding normalize_timestamp_series
  normalize_timestamp_series_label label [] h = cc
  normalize_timestamp_series_label label ((first, value) ∷ items) h =
      elim (Result-cases (normalize_timestamp pd value)) [
        | inl (e, raised) ↦
            let same : first ≡ label = ground arith in
            (0, value, ap (λ l. some (l, value)) same, ap succeeds raised, tt)
        | inr (t, is_t) ↦
            let later : normalize_timestamp_series pd items ≡ err label =
              elim (Result-cases (normalize_timestamp_series pd items)) [
                | inl (e, raised) ↦ ground arith
                | inr (rest, is_rest) ↦ absurd (ground arith)
              ] in
            let (i, bad, is_bad, fails, before) =
              normalize_timestamp_series_label label items later in
            (suc i, bad, is_bad, fails, (ap succeeds is_t, before))
      ]
