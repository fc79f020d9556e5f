-- ===== src/Base/Utf8.antt =====
-- `String::from_utf8`: which byte sequences are well-formed UTF-8, by the table of the Unicode
-- standard. A `String` is then kept as its bytes.
use coap_server_rs.Base.Tests.{leb, if◌then◌else◌}
use coap_server_rs.Base.Texts.{Text}
use Prim.Native.Nat.{ℕ}
use mathlib.Core.Bool.{Bool, true, false, ◌&&◌}
use mathlib.Core.List.{[], ◌∷◌}

-- What may come next: a new character, or so many continuation bytes, the next in a range.
pub data Expect : Type 0 where
  start : Expect
  one_more two_more three_more : ℕ → ℕ → Expect
  malformed : Expect

abbrev after_lead : ℕ → Expect
after_lead b =
    if leb b 0x7f
    then start
    else if leb 0xc2 b && leb b 0xdf
    then one_more 0x80 0xbf
    else if leb b 0xe0 && leb 0xe0 b
    then two_more 0xa0 0xbf
    else if leb b 0xed && leb 0xed b
    then two_more 0x80 0x9f
    else if leb 0xe1 b && leb b 0xef
    then two_more 0x80 0xbf
    else if leb b 0xf0 && leb 0xf0 b
    then three_more 0x90 0xbf
    else if leb 0xf1 b && leb b 0xf3
    then three_more 0x80 0xbf
    else if leb b 0xf4 && leb 0xf4 b
    then three_more 0x80 0x8f
    else malformed

abbrev after_byte : Expect → ℕ → Expect
after_byte start b = after_lead b
after_byte (one_more lo hi) b = if leb lo b && leb b hi then start else malformed
after_byte (two_more lo hi) b = if leb lo b && leb b hi then one_more 0x80 0xbf else malformed
after_byte (three_more lo hi) b = if leb lo b && leb b hi then two_more 0x80 0xbf else malformed
after_byte malformed b = malformed

scan : Expect → Text → Bool
scan start [] = true
scan _ [] = false
scan e (b ∷ bytes) = scan (after_byte e b) bytes

unfoldable pub is_utf8 : Text → Bool
unfolding scan
is_utf8 bytes = scan start bytes
