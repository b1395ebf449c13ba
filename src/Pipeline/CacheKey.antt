-- ===== src/Pipeline/CacheKey.antt =====
-- internal/orchestrator/cachekey.go: the text whose hash is the key of a resolution.
use mathlib.Core.List.{append_assoc, append-nil}
use gomposer.Prelude.{
  ℕ, zero, suc, ◌*◌, ◌/◌, ◌%◌, ◌^◌, ◌<◌, [], ◌∷◌, ◌++◌, ◌≡◌, refl, arith, length,
}
use gomposer.Prelude.Bytes.{Bytes}

-- The lowest bytes of a number, the lowest first.
unfoldable pub little_endian : ℕ → ℕ → Bytes
little_endian zero n = []
little_endian (suc w) n = n % 256 ∷ little_endian w (n / 256)

-- writeLengthed
unfoldable pub lengthed : Bytes → Bytes
unfolding little_endian
lengthed b = little_endian 8 (length b % 2 ^ 64) ++ b

-- What computeCacheKey hashes.
unfoldable pub cache_key_text : Bytes → Bytes → Bytes → Bytes
unfolding lengthed
cache_key_text manifest lock platform = lengthed manifest ++ (lengthed lock ++ lengthed platform)

abbrev byte_range : ℕ → ℕ
byte_range zero = 1
byte_range (suc w) = 256 * byte_range w

cons-inj : (a b : ℕ) (s t : Bytes) → a ∷ s ≡ b ∷ t → (a ≡ b) × (s ≡ t)
cons-inj a b s t h = ground arith

same_digits : (m n : ℕ) → m % 256 ≡ n % 256 → m / 256 ≡ n / 256 → m ≡ n
same_digits m n low high = omega arith

little_endian-inj :
    (w m n : ℕ) (s t : Bytes)
    → m < byte_range w
    → n < byte_range w
    → little_endian w m ++ s ≡ little_endian w n ++ t
    → (m ≡ n) × (s ≡ t)
unfolding little_endian
little_endian-inj zero m n s t hm hn h = (omega arith, h)
little_endian-inj (suc w) m n s t hm hn h =
    let (low, rest) =
      cons-inj (m % 256) (n % 256) (little_endian w (m / 256) ++ s) (little_endian w (n / 256) ++ t)
        h in
    let (high, same) =
      little_endian-inj w (m / 256) (n / 256) s t (omega arith) (omega arith) rest in
    (same_digits m n low high, same)

append-inj : (a b s t : Bytes) → length a ≡ length b → a ++ s ≡ b ++ t → (a ≡ b) × (s ≡ t)
append-inj [] [] s t e h = (refl, h)
append-inj [] (y ∷ b) s t e h = absurd (omega arith)
append-inj (x ∷ a) [] s t e h = absurd (omega arith)
append-inj (x ∷ a) (y ∷ b) s t e h =
    let (first, rest) = cons-inj x y (a ++ s) (b ++ t) h in
    let (same, after) = append-inj a b s t (omega arith) rest in (rw (first, same) refl, after)

lengthed-inj :
    (a b s t : Bytes)
    → length a < 2 ^ 64
    → length b < 2 ^ 64
    → lengthed a ++ s ≡ lengthed b ++ t
    → (a ≡ b) × (s ≡ t)
unfolding lengthed
lengthed-inj a b s t ha hb h =
    let (lengths, rest) =
      little_endian-inj 8 (length a % 2 ^ 64) (length b % 2 ^ 64) (a ++ s) (b ++ t) (omega arith)
        (omega arith)
        (rw
          (
            ← append_assoc (little_endian 8 (length a % 2 ^ 64)) a s,
            ← append_assoc (little_endian 8 (length b % 2 ^ 64)) b t,
          )
          h) in
    append-inj a b s t (omega (arith, lengths)) rest

-- Texts of manifests, lock and platform that are shorter than 2^64 bytes are determined by what is hashed for their cache
-- key: no byte can move from one of them to the next one.
pub cache_key_text-inj :
    (m l p m' l' p' : Bytes)
    → length m < 2 ^ 64
    → length l < 2 ^ 64
    → length p < 2 ^ 64
    → length m' < 2 ^ 64
    → length l' < 2 ^ 64
    → length p' < 2 ^ 64
    → cache_key_text m l p ≡ cache_key_text m' l' p'
    → (m ≡ m') × (l ≡ l') × (p ≡ p')
unfolding cache_key_text
cache_key_text-inj m l p m' l' p' hm hl hp hm' hl' hp' h =
    let (em, after) =
      lengthed-inj m m' (lengthed l ++ lengthed p) (lengthed l' ++ lengthed p') hm hm' h in
    let (el, last) = lengthed-inj l l' (lengthed p) (lengthed p') hl hl' after in
    let (ep, end) =
      lengthed-inj p p' [] [] hp hp'
        (rw (append-nil (lengthed p), append-nil (lengthed p')) last) in
    (em, el, ep)
