-- ===== src/History/Position.antt =====
-- ws/internal/server/history/codec.go: a Kafka partition and offset as one text.
use sukko.Common.{
  ℕ, zero, suc, ◌+◌, ◌-◌, ◌^◌, ◌<◌, ◌≡◌, refl, ap₂, ◌∙◌, inl, inr, Option, none, some, [], ◌∷◌,
  ◌++◌, arith, if◌then◌else◌, ◌==◌, nat_eq, ltb, Option-cases,
}
use sukko.Common.Int.{ℤ, pos, suc_ℤ}
use sukko.Common.Text.{Text, cut, Lacks, cut-append}
use sukko.Common.Decimal.{
  format_int, format_uint, parse_int, parse-format, format_uint-IsDigits, IsDigits, range_pos,
  range_neg, parse_unsigned,
}

abbrev pub pos_max_partition_plus_one : ℕ
pos_max_partition_plus_one = 1_000_000

unfoldable pub encode_pos : ℤ → ℤ → Text
unfolding format_int
encode_pos partition offset = format_int (suc_ℤ partition) ++ (b'-' ∷ format_int offset)

-- Both fields in range, as the two numbers that they stand for.
unfoldable pub decode_fields : Option ℤ → Option ℤ → Option (ℤ × ℤ)
decode_fields (some (pos ms)) (some (pos seq)) =
    if ms == 0
    then none
    else if ltb ms pos_max_partition_plus_one
    then some (pos (ms - 1), pos seq)
    else none
decode_fields _ _ = none

unfoldable pub decode_pos : Text → Option (ℤ × ℤ)
unfolding cut parse_int decode_fields
decode_pos s = elim (cut b'-' s) [
  | none ↦ none
  | some (left, right) ↦ decode_fields (parse_int left) (parse_int right)
]

IsDigits-Lacks : (s : Text) → IsDigits s → Lacks b'-' s
IsDigits-Lacks [] h = tt
IsDigits-Lacks (c ∷ s) h = ((λ e. omega (arith, h.0, e)), IsDigits-Lacks s h.1)

decode_pos-split :
    (left right : Text)
    → Lacks b'-' left
    → decode_pos (left ++ (b'-' ∷ right)) ≡ decode_fields (parse_int left) (parse_int right)
unfolding decode_pos
decode_pos-split left right h = rw (cut-append b'-' left right h, decode_pos)

decode_fields-some :
    (partition offset : ℕ)
    → partition + 1 < pos_max_partition_plus_one
    → decode_fields (some (pos (partition + 1))) (some (pos offset))
      ≡ some (pos partition, pos offset)
unfolding decode_fields
decode_fields-some partition offset h = ground arith

-- A position that was encoded is read back, for every partition whose successor is below the
-- bound and every offset of 63 bits.
pub decode-encode :
    (partition offset : ℕ)
    → partition + 1 < pos_max_partition_plus_one
    → offset < 2 ^ 63
    → decode_pos (encode_pos (pos partition) (pos offset)) ≡ some (pos partition, pos offset)
unfolding encode_pos format_int
decode-encode partition offset h k =
    decode_pos-split (format_uint 10 (partition + 1)) (format_uint 10 offset)
      (IsDigits-Lacks _ (format_uint-IsDigits (partition + 1)))
    ∙ ap₂ decode_fields (parse-format (partition + 1) (omega (arith, h))) (parse-format offset k)
    ∙ decode_fields-some partition offset h

range_pos_bound : (o : Option ℕ) (n : ℕ) → range_pos o ≡ some (pos n) → n < 2 ^ 63
range_pos_bound none n h = cc
range_pos_bound (some m) n h = ground arith

range_neg_bound : (o : Option ℕ) (n : ℕ) → range_neg o ≡ some (pos n) → n < 2 ^ 63
range_neg_bound none n h = cc
range_neg_bound (some zero) n h = ground arith
range_neg_bound (some (suc m)) n h = ground arith

parse_int_bound : (s : Text) (n : ℕ) → parse_int s ≡ some (pos n) → n < 2 ^ 63
unfolding parse_int
parse_int_bound [] n h = cc
parse_int_bound (c ∷ s) n h = ground (
  arith,
  range_neg_bound (parse_unsigned s) n,
  range_pos_bound (parse_unsigned s) n,
  range_pos_bound (parse_unsigned (c ∷ s)) n,
)

-- The two fields of a position that decodes.
abbrev pub Fields : Option ℤ → Option ℤ → ℤ → ℤ → Type 0
Fields left right partition offset =
    (p o : ℕ) × (left ≡ some (pos (p + 1)))
    × (right ≡ some (pos o))
    × (partition ≡ pos p)
    × (offset ≡ pos o)
    × (p + 1 < pos_max_partition_plus_one)

decode_fields_inv :
    (left right : Option ℤ) (partition offset : ℤ)
    → decode_fields left right ≡ some (partition, offset)
    → Fields left right partition offset
unfolding decode_fields
decode_fields_inv (some (pos ms)) (some (pos seq)) partition offset h =
    (ms - 1, seq, ground arith, refl, ground arith, ground arith, ground arith)
decode_fields_inv left right partition offset h = absurd (ground arith)

-- Only a text with a separator decodes, whose first field is the partition's successor, between
-- 1 and the bound, and whose second field is the offset, of at most 63 bits.
pub decode_pos_sound :
    (s : Text) (partition offset : ℤ)
    → decode_pos s ≡ some (partition, offset)
    → (left right : Text) × (p o : ℕ) × (cut b'-' s ≡ some (left, right))
      × (parse_int left ≡ some (pos (p + 1)))
      × (parse_int right ≡ some (pos o))
      × (partition ≡ pos p)
      × (offset ≡ pos o)
      × (p + 1 < pos_max_partition_plus_one)
      × (o < 2 ^ 63)
unfolding decode_pos
decode_pos_sound s partition offset h = elim (Option-cases (cut b'-' s)) [
  | inl missing ↦ absurd (let clash = rw (missing, decode_pos) at h in cc)
  | inr ((left, right), e) ↦
      let (p, o, l, r, a, b, c) =
        decode_fields_inv (parse_int left) (parse_int right) partition offset
          (rw (e, decode_pos) at h) in
      (left, right, p, o, e, l, r, a, b, c, parse_int_bound right o r)
]
