-- ===== src/Host.antt =====
-- What the program takes from the machine it runs on: how `memcpy` sees an `int`, and the byte
-- order functions of arpa/inet.h. A 32-bit `int` in memory is held as its bit pattern.
pub mod Orders
use pa.Prelude.{ℕ, ◌/◌, ◌%◌, ◌^◌, ◌<◌, ◌≡◌, List, [], ◌∷◌, length, arith}

-- The four bytes of a word in network byte order, the most significant first.
abbrev pub network_bytes : ℕ → List ℕ
network_bytes w = (w / 2 ^ 24 % 256) ∷ (w / 2 ^ 16 % 256) ∷ (w / 2 ^ 8 % 256) ∷ (w % 256) ∷ []

-- `store` is the object representation of a word, `load` reads one back.
pub record Host : Type 0 where
  pub store : ℕ → List ℕ
  pub load : List ℕ → ℕ
  pub htonl : ℕ → ℕ
  pub ntohl : ℕ → ℕ
  pub length-store : (w : ℕ) → length (store w) ≡ 4
  pub load-store : (w : ℕ) → w < 2 ^ 32 → load (store w) ≡ w
  pub htonl-lt : (w : ℕ) → w < 2 ^ 32 → htonl w < 2 ^ 32
  pub ntohl-htonl : (w : ℕ) → w < 2 ^ 32 → ntohl (htonl w) ≡ w
  pub htonl-eq-ntohl : (w : ℕ) → w < 2 ^ 32 → htonl w ≡ ntohl w
  pub store-htonl : (w : ℕ) → w < 2 ^ 32 → store (htonl w) ≡ network_bytes w
