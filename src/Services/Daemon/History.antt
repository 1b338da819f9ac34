-- ===== src/Services/Daemon/History.antt =====
-- The traffic history of core/go/internal/services/daemon.go.
use air_bridge5g.Prelude.{
  ℕ, zero, suc, ◌+◌, ◌-◌, ◌≤◌, ◌<◌, ◌≡◌, refl, sym, ap, ◌∙◌, inl, inr, List, [], ◌∷◌, ◌++◌, map,
  append_assoc, append-nil, arith, ltb, Bool-cases, length, drop, length-append, length-drop,
  drop-add,
}
use air_bridge5g.Services.Daemon.{
  Reading, Snapshot, Collector, max_history, push_history, tick, latest, get_traffic_snapshot,
}

-- The last so many elements
abbrev pub last : {A : Type 0} → ℕ → List A → List A
last n xs = drop (length xs - n) xs

abbrev pub reading_of : Snapshot → Reading
reading_of s = s.reading

-- Ticks one after the other: the reading and the time of each.
abbrev pub run_ticks : Collector → List (Reading × ℕ) → Collector
run_ticks c [] = c
run_ticks c ((r, now) ∷ ts) = run_ticks (tick r now c) ts

abbrev pub readings : List (Reading × ℕ) → List Reading
readings [] = []
readings ((r, now) ∷ ts) = r ∷ readings ts

drop-append_le :
    {A : Type 0} (n : ℕ) (xs ys : List A) → n ≤ length xs → drop n (xs ++ ys) ≡ drop n xs ++ ys
drop-append_le zero xs ys h = refl
drop-append_le (suc n) [] ys h = absurd (omega arith)
drop-append_le (suc n) (x ∷ xs) ys h = drop-append_le n xs ys (omega arith)

push_history-room :
    {A : Type 0} (limit : ℕ) (h : List A) (x : A)
    → length h < limit
    → push_history limit h x ≡ h ++ x ∷ []
unfolding push_history
push_history-room limit h x r = ground (arith, length-append h (x ∷ []))

push_history-full :
    {A : Type 0} (limit : ℕ) (h : List A) (x : A)
    → length h ≡ limit
    → push_history limit h x ≡ drop 1 (h ++ x ∷ [])
unfolding push_history
push_history-full limit h x r =
    let e : length (h ++ x ∷ []) - limit ≡ 1 = omega (arith, length-append h (x ∷ [])) in
    ground (arith, length-append h (x ∷ []), e)

last-room : {A : Type 0} (n : ℕ) (xs : List A) → length xs ≤ n → last n xs ≡ xs
last-room n xs h = let e : length xs - n ≡ 0 = omega arith in rw e

-- Pushing onto the last elements gives the last of them all.
push_history-last :
    {A : Type 0} (limit : ℕ) (xs : List A) (x : A)
    → push_history limit (last limit xs) x ≡ last limit (xs ++ x ∷ [])
push_history-last limit xs x = elim (Bool-cases (ltb (length xs) limit)) [
  | inl e ↦
      rw
        (
          last-room limit xs (ground arith),
          last-room limit (xs ++ x ∷ []) (ground (arith, length-append xs (x ∷ []))),
        )
        (push_history-room limit xs x (ground arith))
  | inr e ↦
      let le : limit ≤ length xs = ground arith in
      let k = length xs - limit in
      let f : length (xs ++ x ∷ []) - limit ≡ k + 1 = omega (arith, length-append xs (x ∷ [])) in
      push_history-full limit (last limit xs) x (omega (arith, length-drop k xs))
      ∙ ap (drop 1) (sym (drop-append_le k xs (x ∷ []) (omega arith)))
      ∙ drop-add k 1 (xs ++ x ∷ [])
      ∙ ap (λ n. drop n (xs ++ x ∷ [])) (sym f)
]

map-drop : {A B : Type 0} (f : A → B) (n : ℕ) (xs : List A) → map f (drop n xs) ≡ drop n (map f xs)
map-drop f zero xs = refl
map-drop f (suc n) [] = refl
map-drop f (suc n) (x ∷ xs) = map-drop f n xs

map-append : {A B : Type 0} (f : A → B) (xs ys : List A) → map f (xs ++ ys) ≡ map f xs ++ map f ys
map-append f [] ys = refl
map-append f (x ∷ xs) ys = ap (λ zs. f x ∷ zs) (map-append f xs ys)

length-map : {A B : Type 0} (f : A → B) (xs : List A) → length (map f xs) ≡ length xs
length-map f [] = refl
length-map f (x ∷ xs) = ap suc (length-map f xs)

map-push_history :
    {A B : Type 0} (f : A → B) (limit : ℕ) (h : List A) (x : A)
    → map f (push_history limit h x) ≡ push_history limit (map f h) (f x)
unfolding push_history
map-push_history f limit h x = ground (
  arith,
  map-append f h (x ∷ []),
  length-append h (x ∷ []),
  length-append (map f h) (f x ∷ []),
  length-map f h,
  map-drop f (length (h ++ x ∷ []) - limit) (h ++ x ∷ []),
)

pub tick-reading_of :
    (r : Reading) (now : ℕ) (c : Collector)
    → map reading_of (tick r now c).traffic_history
      ≡ push_history max_history (map reading_of c.traffic_history) r
unfolding tick
tick-reading_of r now c = map-push_history reading_of max_history c.traffic_history _

run_ticks-reading_of :
    (c : Collector) (before : List Reading) (ts : List (Reading × ℕ))
    → map reading_of c.traffic_history ≡ last max_history before
    → map reading_of (run_ticks c ts).traffic_history ≡ last max_history (before ++ readings ts)
run_ticks-reading_of c before [] h = rw (append-nil before) h
run_ticks-reading_of c before ((r, now) ∷ ts) h =
    run_ticks-reading_of (tick r now c) (before ++ r ∷ []) ts (
      tick-reading_of r now c
      ∙ ap (λ l. push_history max_history l r) h
      ∙ push_history-last max_history before r)
    ∙ ap (last max_history) (append_assoc before (r ∷ []) (readings ts))

-- Take a collector with an empty history. After any ticks its history has the readings of the last
-- 60 of them, in their order, and of all of them where there are fewer.
pub history-last :
    (c : Collector) (ts : List (Reading × ℕ))
    → c.traffic_history ≡ []
    → map reading_of (run_ticks c ts).traffic_history ≡ last max_history (readings ts)
history-last c ts h = run_ticks-reading_of c [] ts (ap (map reading_of) h)

latest-append : (current x : Snapshot) (xs : List Snapshot) → latest current (xs ++ x ∷ []) ≡ x
unfolding latest
latest-append current x [] = refl
latest-append current x (y ∷ []) = refl
latest-append current x (y ∷ z ∷ xs) = latest-append current x (z ∷ xs)

-- The limit is above 0, so that what was pushed last is there.
latest-push_history :
    (current x : Snapshot) (limit : ℕ) (h : List Snapshot)
    → 0 < limit
    → latest current (push_history limit h x) ≡ x
unfolding push_history
latest-push_history current x limit h l = elim (Bool-cases (ltb limit (length (h ++ x ∷ [])))) [
  | inl e ↦
      let k = length (h ++ x ∷ []) - limit in
      let le : k ≤ length h = omega (arith, length-append h (x ∷ [])) in
      rw (e, drop-append_le k h (x ∷ []) le) (latest-append current x (drop k h))
  | inr e ↦ rw e (latest-append current x h)
]

-- The snapshot that is given is that of the last tick.
pub get_traffic_snapshot-tick :
    (current : Snapshot) (r : Reading) (now : ℕ) (c : Collector)
    → (get_traffic_snapshot current (tick r now c)).reading ≡ r
unfolding get_traffic_snapshot tick
get_traffic_snapshot-tick current r now c =
    ap reading_of (latest-push_history current _ max_history c.traffic_history (omega arith))
