-- ===== src/Eligibility/Values.antt =====
-- The tests of vaaet-core/src/vaaet/eligibility.py on a value of JSON: what they hold of.
use vaaet.Prelude.{
  leb→le, tests, nat_key, string_key, ℕ, String, ◌≡◌, refl, ap, ◌↔◌, true, pos, negsuc,
}
use vaaet.ViewPlan.Payload.{Value, Items, Entries}
use vaaet.Eligibility.{is_text, is_true, is_mapping, is_empty_list, is_int_from, is_int}
use vaaet.Eligibility.Evidence.{IsIntFrom}

module _ {F : Type 0} where
  pub is_text_iff : (s : String) (v : Value F) → (is_text s v ≡ true) ↔ (v ≡ Value.text s)
  is_text_iff s (Value.text t) = (
    (λ h. ap Value.text ((string_key.test_iff t s).0 h)),
    (λ h. (string_key.test_iff t s).1 (cc)),
  )
  is_text_iff s Value.null = ((λ h. cc), (λ h. cc))
  is_text_iff s (Value.boolean b) = ((λ h. cc), (λ h. cc))
  is_text_iff s (Value.integer i) = ((λ h. cc), (λ h. cc))
  is_text_iff s (Value.number x) = ((λ h. cc), (λ h. cc))
  is_text_iff s (Value.array xs) = ((λ h. cc), (λ h. cc))
  is_text_iff s (Value.object es) = ((λ h. cc), (λ h. cc))
  is_text_iff s Value.other = ((λ h. cc), (λ h. cc))

  pub is_true_iff : (v : Value F) → (is_true v ≡ true) ↔ (v ≡ Value.boolean true)
  is_true_iff (Value.boolean b) = ((λ h. ap Value.boolean h), (λ h. ap is_true h))
  is_true_iff Value.null = ((λ h. cc), (λ h. cc))
  is_true_iff (Value.text b) = ((λ h. cc), (λ h. cc))
  is_true_iff (Value.integer i) = ((λ h. cc), (λ h. cc))
  is_true_iff (Value.number x) = ((λ h. cc), (λ h. cc))
  is_true_iff (Value.array xs) = ((λ h. cc), (λ h. cc))
  is_true_iff (Value.object es) = ((λ h. cc), (λ h. cc))
  is_true_iff Value.other = ((λ h. cc), (λ h. cc))

  pub is_mapping_iff :
      (v : Value F) → (is_mapping v ≡ true) ↔ ((entries : Entries F) × (v ≡ Value.object entries))
  is_mapping_iff (Value.object es) = ((λ _. (es, refl)), (λ _. refl))
  is_mapping_iff (Value.boolean b) = ((λ h. cc), (λ (_, h). cc))
  is_mapping_iff Value.null = ((λ h. cc), (λ (_, h). cc))
  is_mapping_iff (Value.text b) = ((λ h. cc), (λ (_, h). cc))
  is_mapping_iff (Value.integer i) = ((λ h. cc), (λ (_, h). cc))
  is_mapping_iff (Value.number x) = ((λ h. cc), (λ (_, h). cc))
  is_mapping_iff (Value.array xs) = ((λ h. cc), (λ (_, h). cc))
  is_mapping_iff Value.other = ((λ h. cc), (λ (_, h). cc))

  pub is_empty_list_iff : (v : Value F) → (is_empty_list v ≡ true) ↔ (v ≡ Value.array Items.end)
  is_empty_list_iff (Value.array Items.end) = ((λ _. refl), (λ _. refl))
  is_empty_list_iff (Value.array (Items.item x xs)) = ((λ h. cc), (λ h. cc))
  is_empty_list_iff (Value.object es) = ((λ h. cc), (λ h. cc))
  is_empty_list_iff (Value.boolean b) = ((λ h. cc), (λ h. cc))
  is_empty_list_iff Value.null = ((λ h. cc), (λ h. cc))
  is_empty_list_iff (Value.text b) = ((λ h. cc), (λ h. cc))
  is_empty_list_iff (Value.integer i) = ((λ h. cc), (λ h. cc))
  is_empty_list_iff (Value.number x) = ((λ h. cc), (λ h. cc))
  is_empty_list_iff Value.other = ((λ h. cc), (λ h. cc))

  pub is_int_from_iff : (n : ℕ) (v : Value F) → (is_int_from n v ≡ true) ↔ IsIntFrom n v
  is_int_from_iff n (Value.integer (pos i)) = (
    (λ h. (i, refl, leb→le n i h)),
    (λ (j, e, le). let same : i ≡ j = cc in grind (tests, e, same)),
  )
  is_int_from_iff n (Value.integer (negsuc i)) = ((λ h. cc), (λ (_, h, _). cc))
  is_int_from_iff n (Value.array xs) = ((λ h. cc), (λ (_, h, _). cc))
  is_int_from_iff n (Value.object es) = ((λ h. cc), (λ (_, h, _). cc))
  is_int_from_iff n (Value.boolean b) = ((λ h. cc), (λ (_, h, _). cc))
  is_int_from_iff n Value.null = ((λ h. cc), (λ (_, h, _). cc))
  is_int_from_iff n (Value.text b) = ((λ h. cc), (λ (_, h, _). cc))
  is_int_from_iff n (Value.number x) = ((λ h. cc), (λ (_, h, _). cc))
  is_int_from_iff n Value.other = ((λ h. cc), (λ (_, h, _). cc))

  pub is_int_iff : (n : ℕ) (v : Value F) → (is_int n v ≡ true) ↔ (v ≡ Value.integer (pos n))
  is_int_iff n (Value.integer (pos i)) = (
    (λ h. ap (λ j. Value.integer (pos j)) ((nat_key.test_iff i n).0 h)),
    (λ h. (nat_key.test_iff i n).1 (cc)),
  )
  is_int_iff n (Value.integer (negsuc i)) = ((λ h. cc), (λ h. cc))
  is_int_iff n (Value.array xs) = ((λ h. cc), (λ h. cc))
  is_int_iff n (Value.object es) = ((λ h. cc), (λ h. cc))
  is_int_iff n (Value.boolean b) = ((λ h. cc), (λ h. cc))
  is_int_iff n Value.null = ((λ h. cc), (λ h. cc))
  is_int_iff n (Value.text b) = ((λ h. cc), (λ h. cc))
  is_int_iff n (Value.number x) = ((λ h. cc), (λ h. cc))
  is_int_iff n Value.other = ((λ h. cc), (λ h. cc))
