-- ===== src/Privacy/Ttl/Checksum.antt =====
-- `recalcIPv4Checksum` of core/go/internal/privacy/ttl.go.
use air_bridge5g.Prelude.{
  ℕ, ◌+◌, ◌-◌, ◌*◌, ◌/◌, ◌%◌, ◌^◌, ◌≤◌, ◌<◌, ◌≡◌, refl, ◌∙◌, inl, inr, [], ◌∷◌, arith, Bytes, ltb,
  Bool-cases, length, set, All, length-set, All-set,
}
use air_bridge5g.Privacy.Ttl.{
  word_sum, fold_sum, fold_rounds, zero_checksum, put_checksum, header_checksum,
  recalc_ipv4_checksum,
}

abbrev pub IsByte : ℕ → Type 0
IsByte b = b < 256

-- The sum of the words with no wrap-around.
abbrev words : Bytes → ℕ
words [] = 0
words (a ∷ []) = a * 256
words (a ∷ b ∷ rest) = a * 256 + b + words rest

word_sum-words : (sum : ℕ) (h : Bytes) → sum < 2 ^ 32 → word_sum sum h ≡ (sum + words h) % 2 ^ 32
unfolding word_sum
word_sum-words sum [] k = omega arith
word_sum-words sum (a ∷ []) k = omega arith
word_sum-words sum (a ∷ b ∷ rest) k =
    omega (arith, word_sum-words ((sum + (a * 256 + b)) % 2 ^ 32) rest (omega arith))

words-le : (h : Bytes) → All IsByte h → words h ≤ 65535 * length h
words-le [] a = omega arith
words-le (x ∷ []) a = omega (arith, a.0)
words-le (x ∷ y ∷ rest) a = omega (arith, a.0, a.1.0, words-le rest a.1.1)

-- Two rounds bring a uint32 below 2^16, and change it by a multiple of 65535; only 0 gives 0.
pub fold_sum_lem :
    (s : ℕ)
    → s < 2 ^ 32
    → (q : ℕ) × (s ≡ fold_sum fold_rounds s + 65535 * q)
      × (fold_sum fold_rounds s ≤ 65535)
      × (0 < s → 0 < fold_sum fold_rounds s)
unfolding fold_sum
fold_sum_lem s h = elim (Bool-cases (ltb 0xFFFF s)) [
  | inr small ↦ (0, ground arith, ground arith, ground arith)
  | inl big ↦ elim (Bool-cases (ltb 0xFFFF (s / 65536 + s % 65536))) [
    | inl again ↦
        (s / 65536 + (s / 65536 + s % 65536) / 65536, ground arith, ground arith, ground arith)
    | inr once ↦ (s / 65536, ground arith, ground arith, ground arith)
  ]
]

-- The checksum that the receiver computes over the whole header is all ones.
abbrev pub IsChecked : Bytes → Type 0
IsChecked header = fold_sum fold_rounds (word_sum 0 header) ≡ 65535

-- The header with its checksum field at a given value: the words of the rest, and the field.
words_checksum :
    (h : Bytes) (c : ℕ)
    → 12 ≤ length h
    → c < 65536
    → words (put_checksum (zero_checksum h) c) ≡ words (zero_checksum h) + c
words_checksum (x0 ∷ x1 ∷ x2 ∷ x3 ∷ x4 ∷ x5 ∷ x6 ∷ x7 ∷ x8 ∷ x9 ∷ x10 ∷ x11 ∷ rest) c l k =
    omega arith
words_checksum _ c l k = absurd (omega arith)

zero_checksum-IsByte : (h : Bytes) → All IsByte h → All IsByte (zero_checksum h)
zero_checksum-IsByte h a =
    All-set IsByte (set h 10 0) 11 0 (All-set IsByte h 10 0 a (omega arith)) (omega arith)

-- A sum and the complement of its folding add up to a positive multiple of 65535.
all_ones :
    (s f q c s' f' q' : ℕ)
    → s ≡ f + 65535 * q
    → f ≤ 65535
    → c ≡ 65535 - f % 65536
    → s' ≡ s + c
    → s' ≡ f' + 65535 * q'
    → f' ≤ 65535
    → (0 < s' → 0 < f')
    → f' ≡ 65535
all_ones s f q c s' f' q' e le k sum e' le' pos = let p = pos (omega arith) in omega arith

-- Behind `recalcIPv4Checksum` a header of 12 to 60 bytes passes the receiver's test.
pub recalc_ipv4_checksum-IsChecked :
    (h : Bytes) → All IsByte h → 12 ≤ length h → length h ≤ 60 → IsChecked (recalc_ipv4_checksum h)
unfolding recalc_ipv4_checksum
recalc_ipv4_checksum-IsChecked h a lo hi =
    let z = zero_checksum h in
    let zl : length z ≡ length h = length-set (set h 10 0) 11 0 ∙ length-set h 10 0 in
    let bound = words-le z (zero_checksum-IsByte h a) in
    let s0 = word_sum-words 0 z (omega arith) in
    let (q, e, le, pos) = fold_sum_lem (word_sum 0 z) (omega arith) in
    let c = header_checksum h in
    let w = words_checksum h c lo (omega arith) in
    let s1 = word_sum-words 0 (put_checksum z c) (omega arith) in
    let (q', e', le', pos') = fold_sum_lem (word_sum 0 (put_checksum z c)) (omega arith) in
    all_ones (word_sum 0 z) _ q c _ _ q' e le refl (omega arith) e' le' pos'
