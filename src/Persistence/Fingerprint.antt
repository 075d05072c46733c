-- ===== src/Persistence/Fingerprint.antt =====
-- The fingerprint of a content in vaaet-persistence/src/vaaet_persistence/receipts.py. A text to be
-- hashed is the list of its code points. An observation is the list of its entries by the texts of
-- their keys; `sha256` hashes the UTF-8 of a text, and `hex` is `float.hex`.
use vaaet.Prelude.{
  ltb, leb, if◌then◌else◌, is_empty, Result, ok, err, ◌>>=◌, ◌>>◌, raise_if, ◌==◌, ℕ, suc, ◌+◌, ◌-◌,
  ◌/◌, ◌%◌, String, Bool, true, false, not, ◌&&◌, ◌||◌, List, [], ◌∷◌, ◌++◌, map, ℤ, pos, negsuc,
  nat_key, string_key,
}
use vaaet.Prelude.Text.{codes, decimal_from}
use vaaet.Float.{FloatOps}
use vaaet.Persistence.Receipts.{receipt_algorithm}
use vaaet.Persistence.Ordered.{text_le, sort_by}

-- What `json` writes.
mutual
  pub data Json : Type 0 where
    null : Json
    boolean : Bool → Json
    integer : ℤ → Json
    text : String → Json
    array : Items → Json
    object : Fields → Json

  pub data Items : Type 0 where
    end : Items
    item : Json → Items → Items

  pub data Fields : Type 0 where
    empty : Fields
    field : String → Json → Fields → Fields

abbrev pub hex_digit : ℕ → ℕ
hex_digit n = if ltb n 10 then 48 + n else 87 + n

-- `\uXXXX`
abbrev pub unicode_escape : ℕ → List ℕ
unicode_escape c =
    92
    ∷ 117
    ∷ hex_digit (c / 4096 % 16)
    ∷ hex_digit (c / 256 % 16)
    ∷ hex_digit (c / 16 % 16)
    ∷ hex_digit (c % 16)
    ∷ []

unfoldable pub escape : ℕ → List ℕ
escape c =
    if c == 34
    then 92 ∷ 34 ∷ []
    else if c == 92
    then 92 ∷ 92 ∷ []
    else if c == 10
    then 92 ∷ 110 ∷ []
    else if c == 13
    then 92 ∷ 114 ∷ []
    else if c == 9
    then 92 ∷ 116 ∷ []
    else if c == 8
    then 92 ∷ 98 ∷ []
    else if c == 12
    then 92 ∷ 102 ∷ []
    else if leb 32 c && leb c 126
    then c ∷ []
    else if ltb c 65536
    then unicode_escape c
    else unicode_escape (55296 + (c - 65536) / 1024) ++ unicode_escape (56320 + (c - 65536) % 1024)

unfoldable pub escape_all : List ℕ → List ℕ
escape_all [] = []
escape_all (c ∷ cs) = escape c ++ escape_all cs

unfoldable pub quote : String → List ℕ
quote s = 34 ∷ (escape_all (codes s) ++ 34 ∷ [])

abbrev pub print_int : ℤ → List ℕ
print_int (pos n) = codes (decimal_from (suc n) n)
print_int (negsuc n) = 45 ∷ codes (decimal_from (suc (suc n)) (suc n))

-- `",".join(parts)`
unfoldable pub join : List (List ℕ) → List ℕ
join [] = []
join (t ∷ []) = t
join (t ∷ u ∷ ts) = t ++ 44 ∷ join (u ∷ ts)

abbrev pub key_of : {A : Type 0} → List ℕ × A → List ℕ
key_of (k, v) = k

abbrev pub value_of : {A : Type 0} → List ℕ × A → A
value_of (k, v) = v

-- `json.dumps` with sorted keys and without spaces, in ASCII.
unfoldable mutual
  pub dumps : Json → List ℕ
  dumps null = codes "null"
  dumps (boolean true) = codes "true"
  dumps (boolean false) = codes "false"
  dumps (integer i) = print_int i
  dumps (text s) = quote s
  dumps (array items) = 91 ∷ (join (dump_items items) ++ 93 ∷ [])
  dumps (object fields) =
      123 ∷ (join (map value_of (sort_by text_le key_of (dump_fields fields))) ++ 125 ∷ [])

  pub dump_items : Items → List (List ℕ)
  dump_items end = []
  dump_items (item v items) = dumps v ∷ dump_items items

  pub dump_fields : Fields → List (List ℕ × List ℕ)
  dump_fields empty = []
  dump_fields (field k v fields) = (codes k, quote k ++ 58 ∷ dumps v) ∷ dump_fields fields

pub data FingerprintError : Type 0 where
  value_error : FingerprintError
  type_error : FingerprintError

-- A value of an observation, in the order in which `_canonical_value` tells them apart. A decimal
-- comes with the float it converts to.
mutual
  pub data Raw (F T : Type 0) : Type 0 where
    missing : Raw F T
    truth : Bool → Raw F T
    uuid : String → Raw F T
    instant : T → Raw F T
    enumeration : Raw F T → Raw F T
    integral : ℤ → Raw F T
    decimal : (is_finite : Bool) → F → Raw F T
    real : F → Raw F T
    string : String → Raw F T
    mapping : RawEntries F T → Raw F T
    sequence : RawItems F T → Raw F T
    unsupported : Raw F T

  pub data RawItems (F T : Type 0) : Type 0 where
    no_items : RawItems F T
    next_item : Raw F T → RawItems F T → RawItems F T

  pub data RawEntries (F T : Type 0) : Type 0 where
    no_entries : RawEntries F T
    next_entry : String → Raw F T → RawEntries F T → RawEntries F T

-- What pandas does with instants.
pub record Timestamps (T : Type 0) : Type 0 where
  pub is_naive : T → Bool
  pub tz_localize : T → T
  pub tz_convert : T → T
  pub isoformat : T → String

abbrev pub Checked : Type 0 → Type 0
Checked A = Result FingerprintError A

abbrev pub tagged : String → Json → Json
tagged type value = object (field "type" (text type) (field "value" value empty))

-- `d[k] = v`
unfoldable pub put_field : String → Json → Fields → Fields
put_field k v empty = field k v empty
put_field k v (field j w fields) =
    let rest = put_field k v fields in if k == j then field j v fields else field j w rest

-- The entries in their order; the first value that raises ends it.
unfoldable pub collect_fields : List (List ℕ × (String × Checked Json)) → Fields → Checked Fields
collect_fields [] fields = ok fields
collect_fields ((_, (k, value)) ∷ entries) fields =
    value >>= λ v. collect_fields entries (put_field k v fields)

unfoldable pub sorted_fields : List (List ℕ × (String × Checked Json)) → Checked Fields
sorted_fields entries = collect_fields (sort_by text_le key_of entries) empty

unfoldable pub to_items : List Json → Items
to_items [] = end
to_items (v ∷ vs) = item v (to_items vs)

unfoldable pub payload_of : String → List Json → Json
payload_of operation rows = object (
    field "algorithm" (text receipt_algorithm)
      (field "operation" (text operation) (field "observations" (array (to_items rows)) empty)))

module _ {F T : Type 0} ⦃f : FloatOps F⦄ (pd : Timestamps T) (hex : F → String) where
  unfoldable mutual
    pub canonical_value : Raw F T → Checked Json
    canonical_value missing = ok (tagged "null" null)
    canonical_value (truth b) = ok (tagged "bool" (boolean b))
    canonical_value (uuid s) = ok (tagged "uuid" (text s))
    canonical_value (instant t) =
        let utc = if pd.is_naive t then pd.tz_localize t else pd.tz_convert t in
        ok (tagged "datetime" (text (pd.isoformat utc)))
    canonical_value (enumeration v) = canonical_value v
    canonical_value (integral i) = ok (tagged "int" (integer i))
    canonical_value (decimal is_finite x) =
        raise_if (not is_finite) value_error >> ok (tagged "float64" (text (hex x)))
    canonical_value (real x) =
        raise_if (not (f.is_finite x)) value_error >> ok (tagged "float64" (text (hex x)))
    canonical_value (string s) = ok (tagged "str" (text s))
    canonical_value (mapping entries) = sorted_fields (canonical_entries entries) >>= λ fields.
        ok (tagged "mapping" (object fields))
    canonical_value (sequence items) =
        canonical_items items >>= λ items. ok (tagged "sequence" (array items))
    canonical_value unsupported = err type_error

    pub canonical_items : RawItems F T → Checked Items
    canonical_items no_items = ok end
    canonical_items (next_item v items) =
        canonical_value v >>= λ w. canonical_items items >>= λ rest. ok (item w rest)

    pub canonical_entries : RawEntries F T → List (List ℕ × (String × Checked Json))
    canonical_entries no_entries = []
    canonical_entries (next_entry k v entries) =
        (codes k, (k, canonical_value v)) ∷ canonical_entries entries

  unfoldable pub canonical_mapping : RawEntries F T → Checked Json
  canonical_mapping entries =
      sorted_fields (canonical_entries entries) >>= λ fields. ok (object fields)

  unfoldable pub canonical_rows : List (RawEntries F T) → Checked (List Json)
  canonical_rows [] = ok []
  canonical_rows (o ∷ observations) =
      canonical_mapping o >>= λ row. canonical_rows observations >>= λ rows. ok (row ∷ rows)

  unfoldable pub calculate_persistence_fingerprint :
      (sha256 : List ℕ → String) → String → List (RawEntries F T) → Checked String
  calculate_persistence_fingerprint sha256 operation observations =
      raise_if (operation == "" || is_empty observations) value_error
      >> canonical_rows observations
      >>= λ rows. ok (sha256 (dumps (payload_of operation (sort_by text_le dumps rows))))
