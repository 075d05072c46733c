-- ===== src/Contracts/Valid.antt =====
-- What the records that were constructed satisfy.
use vaaet.Prelude.{
  ltb, Bool-cases, ok, succeeds, ◌==◌, string_key, ℕ, suc, ◌+◌, ◌≤◌, String, ◌≡◌, refl, sym, ap,
  ◌∙◌, subst, ◌↔◌, ◌⊎◌, inl, inr, true, false, arith, in_order, in_order-ok, raise_if-ok, ℤ, pos,
  ◌+ℤ◌, ltℤ, leℤ, not-negative, positive, nat_key,
}
use vaaet.Float.{FloatOps, ◌<=◌}
use vaaet.Timestamps.{Pandas, normalize_timestamp}
use vaaet.Contracts.{coerce_timestamp, validate_non_negative_int, validate_ratio, validate_origin}
use vaaet.Contracts.Telemetry.{
  TelemetryRecord, total_counted, count_checks, telemetry_checks, telemetry_record,
}

abbrev pub IsNatural : ℤ → Type 0
IsNatural x = (n : ℕ) × (x ≡ pos n)

abbrev pub IsRatio : {F : Type 0} ⦃f : FloatOps F⦄ → F → Type 0
IsRatio ⦃f = f⦄ x = ((f.of_nat 0 <= x) ≡ true) × ((x <= f.of_nat 1) ≡ true)

-- The pairs of an origin and a scenario that fit together.
abbrev pub IsProvenance : String → String → Type 0
IsProvenance origin scenario =
    ((origin ≡ "real") × (scenario ≡ "observed"))
    ⊎ ((origin ≡ "synthetic") × ((scenario ≡ "accident") ⊎ (scenario ≡ "congestion")))

pub validate_non_negative_int-ok :
    (x : ℤ) (name : String) → (validate_non_negative_int x name ≡ ok tt) ↔ IsNatural x
unfolding validate_non_negative_int
validate_non_negative_int-ok x name = (
  (λ h. (not-negative x).0 ((raise_if-ok (ltℤ x (pos 0)) name).0 h)),
  (λ h. (raise_if-ok (ltℤ x (pos 0)) name).1 ((not-negative x).1 h)),
)

pub validate_ratio-ok :
    {F : Type 0} ⦃f : FloatOps F⦄ (x : F) (name : String)
    → (validate_ratio x name ≡ ok tt) ↔ IsRatio x
unfolding validate_ratio
validate_ratio-ok ⦃f = f⦄ x name =
    ((λ h. (ground arith, ground arith)), (λ h. let above = h.0 in let below = h.1 in ground arith))

equal : {x y : String} → (x == y) ≡ true → x ≡ y
equal {x} {y} h = (string_key.test_iff x y).0 h

pub validate_origin-ok :
    (origin scenario : String)
    → (validate_origin origin scenario ≡ ok tt) ↔ IsProvenance origin scenario
unfolding validate_origin
validate_origin-ok origin scenario = (
  (λ h. elim (Bool-cases (origin == "real")) [
    | inl real ↦
        let observed : (scenario == "observed") ≡ true = ground arith in
        inl (equal real, equal observed)
    | inr other ↦
        let synthetic : (origin == "synthetic") ≡ true = ground arith in
        elim (Bool-cases (scenario == "accident")) [
          | inl accident ↦ inr (equal synthetic, inl (equal accident))
          | inr calm ↦
              let congestion : (scenario == "congestion") ≡ true = ground arith in
              inr (equal synthetic, inr (equal congestion))
        ]
  ]),
  (λ h. elim h [
    | inl (o, s) ↦
        subst (λ x. validate_origin x scenario ≡ ok tt) (sym o)
          (subst (λ y. validate_origin "real" y ≡ ok tt) (sym s) refl)
    | inr (o, inl s) ↦
        subst (λ x. validate_origin x scenario ≡ ok tt) (sym o)
          (subst (λ y. validate_origin "synthetic" y ≡ ok tt) (sym s) refl)
    | inr (o, inr s) ↦
        subst (λ x. validate_origin x scenario ≡ ok tt) (sym o)
          (subst (λ y. validate_origin "synthetic" y ≡ ok tt) (sym s) refl)
  ]),
)

fits-lem :
    (t a b c d e : ℤ) (nt na nb nc nd ne : ℕ)
    → t ≡ pos nt
    → a ≡ pos na
    → b ≡ pos nb
    → c ≡ pos nc
    → d ≡ pos nd
    → e ≡ pos ne
    → (ltℤ t (a +ℤ b +ℤ c +ℤ d +ℤ e) ≡ false) ↔ (na + nb + nc + nd + ne ≤ nt)
fits-lem t a b c d e nt na nb nc nd ne et ea eb ec ed ee =
    let same : ltℤ t (a +ℤ b +ℤ c +ℤ d +ℤ e) ≡ ltb nt (na + nb + nc + nd + ne) =
      ap (λ x. ltℤ x (a +ℤ b +ℤ c +ℤ d +ℤ e)) et
      ∙ ap (λ x. ltℤ (pos nt) (x +ℤ b +ℤ c +ℤ d +ℤ e)) ea
      ∙ ap (λ x. ltℤ (pos nt) (pos na +ℤ x +ℤ c +ℤ d +ℤ e)) eb
      ∙ ap (λ x. ltℤ (pos nt) (pos (na + nb) +ℤ x +ℤ d +ℤ e)) ec
      ∙ ap (λ x. ltℤ (pos nt) (pos (na + nb + nc) +ℤ x +ℤ e)) ed
      ∙ ap (λ x. ltℤ (pos nt) (pos (na + nb + nc + nd) +ℤ x)) ee in
    (
      (λ h. let small : ltb nt (na + nb + nc + nd + ne) ≡ false = sym same ∙ h in ground arith),
      (λ h. let small : ltb nt (na + nb + nc + nd + ne) ≡ false = ground arith in same ∙ small),
    )

module _ {F : Type 0} ⦃f : FloatOps F⦄ {T : Type 0} where
  -- What a valid record promises, in natural numbers.
  pub record IsTelemetry (r : TelemetryRecord F T) : Type 0 where
    pub id : (n : ℕ) × (r.id ≡ pos (suc n))
    pub speed : f.lt r.avg_speed (f.of_nat 0) ≡ false
    pub car : IsNatural r.count_car
    pub truck : IsNatural r.count_truck
    pub bus : IsNatural r.count_bus
    pub motorcycle : IsNatural r.count_motorcycle
    pub bicycle : IsNatural r.count_bicycle
    pub total : IsNatural r.total_vehicles
    pub near_zero : IsNatural r.near_zero_motion_count
    pub stationary : IsNatural r.stationary_confirmed_count
    pub rejected : IsNatural r.rejected_speed_count
    pub recovered : IsNatural r.recovered_track_count
    pub samples : IsNatural r.speed_sample_count
    pub fits : car.0 + truck.0 + bus.0 + motorcycle.0 + bicycle.0 ≤ total.0
    pub quality : IsRatio r.speed_measurement_quality
    pub provenance : IsProvenance r.data_origin r.synthetic_scenario

  checks-IsTelemetry :
      (r : TelemetryRecord F T)
      → leℤ r.id (pos 0) ≡ false
      → in_order (telemetry_checks r) tt ≡ ok tt
      → IsTelemetry r
  unfolding telemetry_checks count_checks total_counted
  checks-IsTelemetry r positive_id h =
      let (speed, (counts, (fits, (quality, (origin, _))))) =
        (in_order-ok (telemetry_checks r)).0 h in
      let (c1, (c2, (c3, (c4, (c5, (c6, (c7, (c8, (c9, (c10, (c11, _))))))))))) =
        (in_order-ok (count_checks r)).0 counts in
      let car = (validate_non_negative_int-ok r.count_car _).0 c1 in
      let truck = (validate_non_negative_int-ok r.count_truck _).0 c2 in
      let bus = (validate_non_negative_int-ok r.count_bus _).0 c3 in
      let motorcycle = (validate_non_negative_int-ok r.count_motorcycle _).0 c4 in
      let bicycle = (validate_non_negative_int-ok r.count_bicycle _).0 c5 in
      let total = (validate_non_negative_int-ok r.total_vehicles _).0 c6 in
      record {
        id = (positive r.id).0 positive_id;
        speed = (raise_if-ok _ _).0 speed;
        car = car;
        truck = truck;
        bus = bus;
        motorcycle = motorcycle;
        bicycle = bicycle;
        total = total;
        near_zero = (validate_non_negative_int-ok r.near_zero_motion_count _).0 c7;
        stationary = (validate_non_negative_int-ok r.stationary_confirmed_count _).0 c8;
        rejected = (validate_non_negative_int-ok r.rejected_speed_count _).0 c9;
        recovered = (validate_non_negative_int-ok r.recovered_track_count _).0 c10;
        samples = (validate_non_negative_int-ok r.speed_sample_count _).0 c11;
        fits =
            (fits-lem r.total_vehicles r.count_car r.count_truck r.count_bus r.count_motorcycle
                r.count_bicycle total.0 car.0 truck.0 bus.0 motorcycle.0 bicycle.0 total.1 car.1
                truck.1 bus.1 motorcycle.1 bicycle.1).0
              ((raise_if-ok _ _).0 fits);
        quality = (validate_ratio-ok r.speed_measurement_quality _).0 quality;
        provenance = (validate_origin-ok r.data_origin r.synthetic_scenario).0 origin;
      }

  IsTelemetry-checks :
      (r : TelemetryRecord F T) → IsTelemetry r → in_order (telemetry_checks r) tt ≡ ok tt
  unfolding telemetry_checks count_checks total_counted
  IsTelemetry-checks r v =
      let natural : (x : ℤ) (name : String)
          → IsNatural x
          → validate_non_negative_int x name ≡ ok tt =
        λ x name n. (validate_non_negative_int-ok x name).1 n in
      (in_order-ok (telemetry_checks r)).1 (
        (raise_if-ok _ _).1 v.speed,
        (
          (in_order-ok (count_checks r)).1 (
            natural _ _ v.car,
            (
              natural _ _ v.truck,
              (
                natural _ _ v.bus,
                (
                  natural _ _ v.motorcycle,
                  (
                    natural _ _ v.bicycle,
                    (
                      natural _ _ v.total,
                      (
                        natural _ _ v.near_zero,
                        (
                          natural _ _ v.stationary,
                          (
                            natural _ _ v.rejected,
                            (natural _ _ v.recovered, (natural _ _ v.samples, tt)),
                          ),
                        ),
                      ),
                    ),
                  ),
                ),
              ),
            ),
          ),
          (
            (raise_if-ok _ _).1 (
                (fits-lem r.total_vehicles r.count_car r.count_truck r.count_bus r.count_motorcycle
                    r.count_bicycle v.total.0 v.car.0 v.truck.0 v.bus.0 v.motorcycle.0 v.bicycle.0
                    v.total.1 v.car.1 v.truck.1 v.bus.1 v.motorcycle.1 v.bicycle.1).1
                  v.fits),
            (
              (validate_ratio-ok r.speed_measurement_quality _).1 v.quality,
              ((validate_origin-ok r.data_origin r.synthetic_scenario).1 v.provenance, tt),
            ),
          ),
        ),
      )

module _ {F : Type 0} ⦃f : FloatOps F⦄ {V S : Type 0} (pd : Pandas V S) where
  -- A telemetry record is accepted exactly when its identifier is positive, its counts are natural
  -- numbers of which the five types add up to no more than the total, its speed is not below zero,
  -- its quality is within [0, 1], its origin and scenario fit together, and its time can be
  -- normalized.
  pub telemetry_record-succeeds :
      (r : TelemetryRecord F V)
      → (succeeds (telemetry_record pd r) ≡ true)
        ↔ (IsTelemetry r × (succeeds (normalize_timestamp pd r.record_time) ≡ true))
  unfolding telemetry_record coerce_timestamp
  telemetry_record-succeeds r = (
    (λ h.
        let small : leℤ r.id (pos 0) ≡ false = ground arith in
        let time : succeeds (normalize_timestamp pd r.record_time) ≡ true = ground arith in
        let checks : in_order (telemetry_checks r) tt ≡ ok tt = ground arith in
        (checks-IsTelemetry r small checks, time)),
    (λ h.
        let v = h.0 in
        let small : leℤ r.id (pos 0) ≡ false = (positive r.id).1 v.id in
        let time = h.1 in let checks = IsTelemetry-checks r v in ground arith),
  )
