-- ===== src/Buffer.antt =====
-- A `char` buffer as the list of its bytes, and the two directions of `memcpy` into it.
use pa.Prelude.{ℕ, zero, suc, ◌≤◌, ◌≡◌, refl, ap, List, [], ◌∷◌, ◌++◌, length, take, drop, arith}

-- `memcpy(buffer, bytes, n)`: what lies behind the buffer's end is not written.
overlay : List ℕ → List ℕ → List ℕ
overlay [] buffer = buffer
overlay (x ∷ xs) [] = []
overlay (x ∷ xs) (b ∷ buffer) = x ∷ overlay xs buffer

-- `memcpy(buffer + offset, bytes, n)`
unfoldable pub write : List ℕ → ℕ → List ℕ → List ℕ
unfolding overlay
write buffer zero bytes = overlay bytes buffer
write [] (suc offset) bytes = []
write (b ∷ buffer) (suc offset) bytes = b ∷ write buffer offset bytes

-- `memcpy(&x, buffer + offset, n)`
abbrev pub read : List ℕ → ℕ → ℕ → List ℕ
read buffer offset n = take n (drop offset buffer)

overlay_lem :
    (bytes buffer : List ℕ)
    → length bytes ≤ length buffer
    → overlay bytes buffer ≡ bytes ++ drop (length bytes) buffer
unfolding overlay
overlay_lem [] buffer h = refl
overlay_lem (x ∷ xs) [] h = elim h [ ]
overlay_lem (x ∷ xs) (b ∷ buffer) h = ap (◌∷◌ x) (overlay_lem xs buffer (omega arith))

-- Writing behind what has been written.
pub write-append :
    (front buffer bytes : List ℕ)
    → length bytes ≤ length buffer
    → write (front ++ buffer) (length front) bytes ≡ front ++ (bytes ++ drop (length bytes) buffer)
unfolding write
write-append [] buffer bytes h = overlay_lem bytes buffer h
write-append (x ∷ xs) buffer bytes h = ap (◌∷◌ x) (write-append xs buffer bytes h)

-- What a message leaves in a buffer that it fits: itself, and the bytes behind it.
pub write_front :
    (buffer bytes : List ℕ)
    → length bytes ≤ length buffer
    → write buffer 0 bytes ≡ bytes ++ drop (length bytes) buffer
unfolding write
write_front buffer bytes h = overlay_lem bytes buffer h
