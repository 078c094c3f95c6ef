-- ===== src/Messages/Fields.antt =====
-- One `int` field of a message in a buffer, as every `Marshal` and `Unmarshal` of Messages.cpp
-- handles it, and the layout of several fields in a row.
use pa.Prelude.{
  ℕ, ◌+◌, ◌*◌, ◌≤◌, ◌≡◌, refl, sym, ap, ap₂, ◌∙◌, List, [], ◌∷◌, ◌++◌, append_assoc, length,
  length-append, length-drop, drop, drop-drop, take-append, drop-append, arith, ℤ, IsInt, to_word,
  from_word, to_word-lt, from_word-to_word, get_or, minus_one, zero, suc, ◌<◌,
}
use pa.Host.{Host, network_bytes}
use pa.Buffer.{write, read, write-append}

-- sizeof(int)
abbrev pub int_size : ℕ
int_size = 4

-- `int net_x = htonl(x); memcpy(buffer + offset, &net_x, sizeof(net_x));`
unfoldable pub put_field : Host → List ℕ → ℕ → ℤ → List ℕ
put_field host buffer offset x = write buffer offset (host.store (host.htonl (to_word x)))

-- `int net_x; memcpy(&net_x, buffer + offset, sizeof(net_x));`
unfoldable pub net_field : Host → List ℕ → ℕ → ℕ
net_field host buffer offset = host.load (read buffer offset int_size)

-- `x = ntohl(net_x);`
unfoldable pub get_field : Host → List ℕ → ℕ → ℤ
unfolding net_field
get_field host buffer offset = from_word (host.ntohl (net_field host buffer offset))

-- An `int` as it travels.
unfoldable pub network : ℤ → List ℕ
network x = network_bytes (to_word x)

-- The format of a message: its fields in order, each in network byte order.
unfoldable pub encode : List ℤ → List ℕ
encode [] = []
encode (x ∷ xs) = network x ++ encode xs

unfoldable pub put_fields : Host → List ℤ → ℕ → List ℕ → List ℕ
put_fields host [] offset buffer = buffer
put_fields host (x ∷ xs) offset buffer =
    put_fields host xs (offset + int_size) (put_field host buffer offset x)

pub length-network : (x : ℤ) → length (network x) ≡ 4
unfolding network
length-network x = refl

pub length-encode : (xs : List ℤ) → length (encode xs) ≡ length xs * 4
unfolding encode
length-encode [] = omega arith
length-encode (x ∷ xs) =
    omega (arith, length-append (network x) (encode xs), length-network x, length-encode xs)

put_field-append :
    (host : Host) (front buffer : List ℕ) (x : ℤ)
    → 4 ≤ length buffer
    → put_field host (front ++ buffer) (length front) x ≡ (front ++ network x) ++ drop 4 buffer
unfolding put_field network
put_field-append host front buffer x room =
    rw (host.store-htonl (to_word x) (to_word-lt x), append_assoc)
      (write-append front buffer (network_bytes (to_word x)) room)

drop-encode :
    (x : ℤ) (xs : List ℤ) (buffer : List ℕ)
    → drop (length (encode xs)) (drop 4 buffer) ≡ drop (length (encode (x ∷ xs))) buffer
unfolding encode network
drop-encode x xs buffer =
    drop-drop 4 (length (encode xs)) buffer
    ∙ ap (λ n. drop n buffer) (sym (length-append (network x) (encode xs)))

put_fields-append :
    (host : Host) (xs : List ℤ) (front buffer : List ℕ) (offset : ℕ)
    → offset ≡ length front
    → length xs * 4 ≤ length buffer
    → put_fields host xs offset (front ++ buffer)
      ≡ front ++ (encode xs ++ drop (length (encode xs)) buffer)
unfolding put_fields encode
put_fields-append host [] front buffer offset at room = refl
put_fields-append host (x ∷ xs) front buffer offset at room =
    ap₂ (λ k b. put_fields host xs (k + 4) b) at
      (rw at (put_field-append host front buffer x (omega arith)))
    ∙ put_fields-append host xs (front ++ network x) (drop 4 buffer) (length front + 4)
        (omega (arith, length-append front (network x), length-network x))
        (omega (arith, length-drop 4 buffer))
    ∙ regroup
  where
    tail : List ℕ
    tail = drop (length (encode xs)) (drop 4 buffer)

    regroup :
        (front ++ network x) ++ (encode xs ++ tail)
        ≡ front ++ ((network x ++ encode xs) ++ drop (length (encode (x ∷ xs))) buffer)
    regroup =
        append_assoc front (network x) (encode xs ++ tail)
        ∙ ap (◌++◌ front) (
            sym (append_assoc (network x) (encode xs) tail)
            ∙ ap (◌++◌ (network x ++ encode xs)) (drop-encode x xs buffer))

-- Writing the fields of a message in a row gives its format, and leaves the rest of the buffer.
pub put_fields-encode :
    (host : Host) (xs : List ℤ) (buffer : List ℕ)
    → length xs * 4 ≤ length buffer
    → put_fields host xs 0 buffer ≡ encode xs ++ drop (length (encode xs)) buffer
put_fields-encode host xs buffer room = put_fields-append host xs [] buffer 0 refl room

read-append :
    (front bytes rest : List ℕ)
    → read (front ++ (bytes ++ rest)) (length front) (length bytes) ≡ bytes
read-append front bytes rest = rw (drop-append front (bytes ++ rest)) (take-append bytes rest)

load-network :
    (host : Host) (front rest : List ℕ) (x : ℤ)
    → net_field host (front ++ (network x ++ rest)) (length front) ≡ host.htonl (to_word x)
unfolding net_field network
load-network host front rest x = ap host.load (read-append front (network x) rest) ∙ loaded
  where
    loaded : host.load (network x) ≡ host.htonl (to_word x)
    loaded =
        rw (← host.store-htonl (to_word x) (to_word-lt x))
          (host.load-store (host.htonl (to_word x)) (host.htonl-lt (to_word x) (to_word-lt x)))

net_field-encode :
    (host : Host) (xs : List ℤ) (front rest : List ℕ) (i offset : ℕ)
    → i < length xs
    → offset ≡ length front + i * 4
    → net_field host (front ++ (encode xs ++ rest)) offset
      ≡ host.htonl (to_word (get_or xs i minus_one))
unfolding encode
net_field-encode host [] front rest i offset below at = absurd (omega arith)
net_field-encode host (x ∷ xs) front rest zero offset below at =
    ap₂ (net_field host) (ap (◌++◌ front) (append_assoc (network x) (encode xs) rest)) (omega arith)
    ∙ load-network host front (encode xs ++ rest) x
net_field-encode host (x ∷ xs) front rest (suc i) offset below at =
    ap (λ b. net_field host b offset)
      (ap (◌++◌ front) (append_assoc (network x) (encode xs) rest)
        ∙ sym (append_assoc front (network x) (encode xs ++ rest)))
    ∙ net_field-encode host xs (front ++ network x) rest i offset (omega arith)
        (omega (arith, length-append front (network x), length-network x))

-- Reading field `i` of a message gives that field.
pub get_field-encode :
    (host : Host) (xs : List ℤ) (rest : List ℕ) (i : ℕ)
    → i < length xs
    → IsInt (get_or xs i minus_one)
    → get_field host (encode xs ++ rest) (i * 4) ≡ get_or xs i minus_one
unfolding get_field
get_field-encode host xs rest i below fits =
    let x = get_or xs i minus_one in
    rw
      (
        net_field-encode host xs [] rest i (i * 4) below (omega arith),
        host.ntohl-htonl (to_word x) (to_word-lt x),
      )
      (from_word-to_word x fits)

-- The same where `Unmarshal` calls `htonl` in place of `ntohl`.
pub get_field-encode_htonl :
    (host : Host) (xs : List ℤ) (rest : List ℕ) (i : ℕ)
    → i < length xs
    → IsInt (get_or xs i minus_one)
    → from_word (host.htonl (net_field host (encode xs ++ rest) (i * 4))) ≡ get_or xs i minus_one
get_field-encode_htonl host xs rest i below fits =
    let x = get_or xs i minus_one in
    rw
      (
        net_field-encode host xs [] rest i (i * 4) below (omega arith),
        host.htonl-eq-ntohl (host.htonl (to_word x)) (host.htonl-lt (to_word x) (to_word-lt x)),
        host.ntohl-htonl (to_word x) (to_word-lt x),
      )
      (from_word-to_word x fits)
