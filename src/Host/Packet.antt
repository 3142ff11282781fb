-- ===== src/Host/Packet.antt =====
-- src/host.rs, the Wake-on-LAN packet.
use llm_wake_proxy.Base.{
  ℕ, zero, suc, ◌+◌, ◌*◌, ◌<◌, ◌≡◌, refl, some, List, [], ◌∷◌, arith, length, get_elem?,
  length-append, get_elem?-left, get_elem?-right, ◌∙◌,
}
use llm_wake_proxy.Host.{repeated, wol_packet}

repeated-length : (n : ℕ) (bytes : List ℕ) → length bytes ≡ 6 → length (repeated n bytes) ≡ 6 * n
unfolding repeated
repeated-length zero bytes six = omega arith
repeated-length (suc n) bytes six =
    omega (arith, length-append bytes (repeated n bytes), repeated-length n bytes six, six)

repeated-get_elem? :
    (n i j : ℕ) (bytes : List ℕ)
    → length bytes ≡ 6
    → i < n
    → j < 6
    → get_elem? (repeated n bytes) (6 * i + j) ≡ get_elem? bytes j
unfolding repeated
repeated-get_elem? zero i j bytes six h k = absurd (omega (arith, h))
repeated-get_elem? (suc n) zero j bytes six h k =
    get_elem?-left bytes (repeated n bytes) (6 * 0 + j) j (omega arith) (omega (arith, k, six))
repeated-get_elem? (suc n) (suc i) j bytes six h k =
    get_elem?-right bytes (repeated n bytes) (6 * suc i + j) (6 * i + j) (omega (arith, six))
    ∙ repeated-get_elem? n i j bytes six (omega (arith, h)) k

sync_byte :
    (j : ℕ) → j < 6 → get_elem? {A = ℕ} (0xff ∷ 0xff ∷ 0xff ∷ 0xff ∷ 0xff ∷ 0xff ∷ []) j ≡ some 0xff
sync_byte zero h = refl
sync_byte (suc zero) h = refl
sync_byte (suc (suc zero)) h = refl
sync_byte (suc (suc (suc zero))) h = refl
sync_byte (suc (suc (suc (suc zero)))) h = refl
sync_byte (suc (suc (suc (suc (suc zero))))) h = refl
sync_byte (suc (suc (suc (suc (suc (suc j)))))) h = absurd (omega (arith, h))

-- For a MAC of six bytes the packet has 102 bytes: six times 0xff, and then sixteen times the MAC, byte
-- for byte.
pub wol_packet-magic :
    (mac : List ℕ) (i j : ℕ)
    → length mac ≡ 6
    → i < 16
    → j < 6
    → (length (wol_packet mac) ≡ 102)
      × (get_elem? (wol_packet mac) j ≡ some 0xff)
      × (get_elem? (wol_packet mac) (6 + (6 * i + j)) ≡ get_elem? mac j)
unfolding wol_packet
wol_packet-magic mac i j six h k =
    let sync : List ℕ = 0xff ∷ 0xff ∷ 0xff ∷ 0xff ∷ 0xff ∷ 0xff ∷ [] in
    (
      omega (arith, length-append sync (repeated 16 mac), repeated-length 16 mac six),
      get_elem?-left sync (repeated 16 mac) j j refl k ∙ sync_byte j k,
      get_elem?-right sync (repeated 16 mac) (6 + (6 * i + j)) (6 * i + j) refl
          ∙ repeated-get_elem? 16 i j mac six h k,
    )
