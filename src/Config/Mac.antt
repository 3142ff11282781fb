-- ===== src/Config/Mac.antt =====
-- src/config.rs, parse_mac, against the notation XX:XX:XX:XX:XX:XX.
use llm_wake_proxy.Base.{
  ℕ, zero, suc, ◌+◌, ◌-◌, ◌/◌, ◌%◌, ◌<◌, ◌≡◌, refl, ap, Bool, true, false, ◌&&◌, Option, none, some,
  List, [], ◌∷◌, map, arith, length, join_with, from_str_radix, ltb, ◌==◌, if◌then◌else◌,
  split-join, is_free, AllFree, ◌∙◌,
}
use llm_wake_proxy.Config.{u8_max, mac_bytes, parse_mac}
use llm_wake_proxy.Config.Bounds.{AllBytes}

hex_digit : ℕ → ℕ
hex_digit n = if ltb n 10 then n + b'0' else n - 10 + b'A'

hex_byte : ℕ → List ℕ
unfolding hex_digit
hex_byte n = hex_digit (n / 16) ∷ hex_digit (n % 16) ∷ []

-- Six bytes in upper-case hexadecimal, joined by colons.
pub format_mac : List ℕ → List ℕ
unfolding hex_byte
format_mac m = join_with b':' (map hex_byte m)

is_parsed : ℕ → Option ℕ → Bool
is_parsed n none = false
is_parsed n (some m) = m == n

byte_ok : ℕ → Bool
unfolding is_parsed hex_byte
byte_ok n = is_free b':' (hex_byte n) && is_parsed n (from_str_radix 16 u8_max (hex_byte n))

-- Whether the `count` bytes from `first` on are written and read back.
table_ok : (first count : ℕ) → Bool
unfolding byte_ok
table_ok first zero = true
table_ok first (suc count) = byte_ok first && table_ok (suc first) count

table_ok-byte_ok :
    (first count offset : ℕ)
    → offset < count
    → table_ok first count ≡ true
    → byte_ok (first + offset) ≡ true
unfolding table_ok
table_ok-byte_ok first zero offset lt t = absurd (omega (arith, lt))
table_ok-byte_ok first (suc count) zero lt t =
    let here : first + 0 ≡ first = omega arith in rw here (ground (arith, t))
table_ok-byte_ok first (suc count) (suc offset) lt t =
    let next : first + suc offset ≡ suc first + offset = omega arith in
    let rest : table_ok (suc first) count ≡ true = ground (arith, t) in
    rw next (table_ok-byte_ok (suc first) count offset (omega (arith, lt)) rest)

all_bytes_ok : table_ok 0 256 ≡ true
unfolding table_ok byte_ok from_str_radix
all_bytes_ok = refl

byte_at : (n : ℕ) → n < 256 → byte_ok n ≡ true
byte_at n h =
    let here : 0 + n ≡ n = omega arith in rw (← here) (table_ok-byte_ok 0 256 n h all_bytes_ok)

hex_byte-free : (n : ℕ) → n < 256 → is_free b':' (hex_byte n) ≡ true
unfolding byte_ok
hex_byte-free n h = ground (arith, byte_at n h)

parse-hex_byte : (n : ℕ) → n < 256 → from_str_radix 16 u8_max (hex_byte n) ≡ some n
unfolding byte_ok
parse-hex_byte n h = ground (arith, byte_at n h)

map-hex_byte-free : (m : List ℕ) → AllBytes m → AllFree b':' (map hex_byte m)
map-hex_byte-free [] h = tt
map-hex_byte-free (b ∷ m) h = (hex_byte-free b (omega arith), map-hex_byte-free m h.1)

mac_bytes-hex_byte : (m : List ℕ) → AllBytes m → mac_bytes (map hex_byte m) ≡ some m
unfolding mac_bytes
mac_bytes-hex_byte [] h = refl
mac_bytes-hex_byte (b ∷ m) h = rw (parse-hex_byte b (omega arith)) (rw (mac_bytes-hex_byte m h.1))

length-map : (m : List ℕ) → length (map hex_byte m) ≡ length m
length-map [] = refl
length-map (b ∷ m) = ap suc (length-map m)

-- Six bytes written as XX:XX:XX:XX:XX:XX are parsed back.
pub parse_mac-format_mac :
    (m : List ℕ) → length m ≡ 6 → AllBytes m → parse_mac (format_mac m) ≡ some m
unfolding parse_mac format_mac
parse_mac-format_mac [] six h = absurd (omega arith)
parse_mac-format_mac (b ∷ m) six h =
    rw (split-join b':' (hex_byte b) (map hex_byte m) (map-hex_byte-free (b ∷ m) h))
      (rw (length-map (b ∷ m) ∙ six) (mac_bytes-hex_byte (b ∷ m) h))
