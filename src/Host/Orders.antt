-- ===== src/Host/Orders.antt =====
-- Two machines that are a `Host`: one keeps the lowest byte of a word first, one the highest.
use pa.Prelude.{ℕ, ◌+◌, ◌*◌, ◌/◌, ◌%◌, ◌^◌, ◌<◌, ◌≡◌, refl, List, [], ◌∷◌, arith}
use pa.Host.{Host, network_bytes}

-- The value of four bytes, the most significant first.
abbrev pub word_of : ℕ → ℕ → ℕ → ℕ → ℕ
word_of a b c d = a * 2 ^ 24 + b * 2 ^ 16 + c * 2 ^ 8 + d

-- The same four bytes in the reverse order.
abbrev pub swap : ℕ → ℕ
swap w = word_of (w % 256) (w / 2 ^ 8 % 256) (w / 2 ^ 16 % 256) (w / 2 ^ 24 % 256)

abbrev pub little_bytes : ℕ → List ℕ
little_bytes w = (w % 256) ∷ (w / 2 ^ 8 % 256) ∷ (w / 2 ^ 16 % 256) ∷ (w / 2 ^ 24 % 256) ∷ []

abbrev load_little : List ℕ → ℕ
load_little (a ∷ b ∷ c ∷ d ∷ _) = word_of d c b a
load_little _ = 0

abbrev load_big : List ℕ → ℕ
load_big (a ∷ b ∷ c ∷ d ∷ _) = word_of a b c d
load_big _ = 0

pub word_of_bytes :
    (w : ℕ)
    → w < 2 ^ 32
    → word_of (w / 2 ^ 24 % 256) (w / 2 ^ 16 % 256) (w / 2 ^ 8 % 256) (w % 256) ≡ w
word_of_bytes w h = omega arith

pub swap-lt : (w : ℕ) → w < 2 ^ 32 → swap w < 2 ^ 32
swap-lt w h = omega arith

pub swap-swap : (w : ℕ) → w < 2 ^ 32 → swap (swap w) ≡ w
swap-swap w h = omega arith

pub little-swap : (w : ℕ) → w < 2 ^ 32 → little_bytes (swap w) ≡ network_bytes w
little-swap w h = ground arith

abbrev pub little_host : Host
little_host = record {
  store = little_bytes;
  load = load_little;
  htonl = swap;
  ntohl = swap;
  length-store = λ w. refl;
  load-store = word_of_bytes;
  htonl-lt = swap-lt;
  ntohl-htonl = swap-swap;
  htonl-eq-ntohl = λ w h. refl;
  store-htonl = little-swap;
}

abbrev pub big_host : Host
big_host = record {
  store = network_bytes;
  load = load_big;
  htonl = λ w. w;
  ntohl = λ w. w;
  length-store = λ w. refl;
  load-store = word_of_bytes;
  htonl-lt = λ w h. h;
  ntohl-htonl = λ w h. refl;
  htonl-eq-ntohl = λ w h. refl;
  store-htonl = λ w h. refl;
}
