-- ===== src/History/Tests.antt =====
-- Concrete positions.
use sukko.Common.{◌≡◌, refl, none, some, arith}
use sukko.Common.Int.{pos}
use sukko.Common.Text.{codes}
use sukko.History.Position.{encode_pos, decode_pos, decode-encode}

encoded : encode_pos (pos 2) (pos 1234) ≡ codes "3-1234"
unfolding encode_pos
encoded = refl

valkey_id : decode_pos (codes "1732636800000-0") ≡ none
unfolding decode_pos
valkey_id = refl

decode-encode_example : decode_pos (encode_pos (pos 2) (pos 1234)) ≡ some (pos 2, pos 1234)
decode-encode_example = decode-encode 2 1234 (omega arith) (omega arith)
