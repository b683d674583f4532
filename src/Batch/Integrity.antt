-- ===== src/Batch/Integrity.antt =====
-- src/alfabetizacao_pipeline/batch/integrity.py: the CRC32C of a payload, in base64.
use tech_challenge_fase2_alf.Prelude.{
  ℕ, nat_eq, suc, ◌∷◌, if◌then◌else◌, ◌≡◌, ◌/◌, ◌==◌, ltb, [], ◌^◌, zero, ◌+◌, ◌%◌, refl, ◌-◌, ◌*◌,
}
use Prim.Native.Nat.{bit_and, bit_xor}
use tech_challenge_fase2_alf.Batch.Models.{Bytes}

-- One of the eight rounds of a byte.
pub crc_round : ℕ → ℕ
crc_round checksum = bit_xor (checksum / 2) (if bit_and checksum 1 == 1 then 0x82F63B78 else 0)

pub crc_rounds : ℕ → ℕ → ℕ
crc_rounds zero checksum = checksum
crc_rounds (suc n) checksum = crc_rounds n (crc_round checksum)

pub crc_loop : ℕ → Bytes → ℕ
crc_loop checksum [] = checksum
crc_loop checksum (byte ∷ bytes) = crc_loop (crc_rounds 8 (bit_xor checksum byte)) bytes

pub crc32c : Bytes → ℕ
crc32c payload = bit_and (bit_xor (crc_loop 0xFFFFFFFF payload) 0xFFFFFFFF) 0xFFFFFFFF

-- The 64 characters of base64.
pub base64_char : ℕ → ℕ
base64_char n =
    if ltb n 26
    then n + b'A'
    else (if ltb n 52
        then n - 26 + b'a'
        else (if ltb n 62 then n - 52 + b'0' else (if n == 62 then b'+' else b'/')))

-- `base64.b64encode` of the four bytes of a 32-bit number, as character codes: six characters, the
-- last with four padding bits, and two padding characters.
pub base64_of_32 : ℕ → Bytes
base64_of_32 n =
    base64_char (n / 2 ^ 26 % 64)
    ∷ base64_char (n / 2 ^ 20 % 64)
    ∷ base64_char (n / 2 ^ 14 % 64)
    ∷ base64_char (n / 2 ^ 8 % 64)
    ∷ base64_char (n / 2 ^ 2 % 64)
    ∷ base64_char (n % 4 * 16)
    ∷ b'='
    ∷ b'='
    ∷ []

pub crc32c_base64 : Bytes → Bytes
crc32c_base64 payload = base64_of_32 (crc32c payload)

-- The check value of CRC-32C: the digits 1 to 9.
crc32c_check :
    crc32c (0x31 ∷ 0x32 ∷ 0x33 ∷ 0x34 ∷ 0x35 ∷ 0x36 ∷ 0x37 ∷ 0x38 ∷ 0x39 ∷ []) ≡ 0xE3069283
unfolding crc32c crc_loop crc_rounds crc_round nat_eq
crc32c_check = refl

base64_check : base64_of_32 0 ≡ 0x41 ∷ 0x41 ∷ 0x41 ∷ 0x41 ∷ 0x41 ∷ 0x41 ∷ 0x3D ∷ 0x3D ∷ []
unfolding base64_of_32 base64_char nat_eq
base64_check = refl
