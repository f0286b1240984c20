-- ===== src/StateMap/GetDiff/Scans.antt =====
-- Where the two loops of `get_diff` stop, on the history of a master.
use mathlib.Core.List.{reverse-cons}
use syncstate.Prelude.{
  ℕ, zero, suc, ◌+◌, ◌-◌, ◌<◌, ◌≤◌, ◌≡◌, refl, ap, ◌∙◌, ◌⊎◌, List, [], ◌∷◌, ◌++◌, get_last?,
  reverse, some, arith, leb, if◌then◌else◌,
}
use syncstate.Diff.{Diff}
use syncstate.StateMap.History.{Chain, IsHistory, Chain-le}
use syncstate.StateMap.GetDiff.{
  Scan, break_at, return_at, finished, enumerate, scan_from, scan_upto,
}

-- Index 0 holds the opening diff, index `f + 1` the update that starts at `f`.
abbrev pub start_of : ℕ → ℕ
start_of zero = 0
start_of (suc f) = suc (suc f)

abbrev or_scan : Scan → Scan → Scan
or_scan finished other = other
or_scan (break_at i) other = break_at i
or_scan (return_at i) other = return_at i

-- What the loop from the back finds in a chain that starts at `a`, the first at index `i`.
abbrev stop_at : ℕ → ℕ → ℕ → ℕ → Scan
stop_at u i a n =
    if leb u a
    then finished
    else if leb n a
    then finished
    else if leb u n
    then break_at (i + (u - suc a))
    else return_at (i + (n - suc a))

module _ {ℓ} {K T : Type ℓ} where
  scan_from_hit :
      (i f a : ℕ) (ds : List (Diff K T)) (n : ℕ)
      → Chain a ds n
      → a ≤ f
      → f < n
      → scan_from f (enumerate i ds) ≡ break_at (i + (f - a))
  unfolding scan_from enumerate
  scan_from_hit i f a [] n c p q = absurd (omega arith)
  scan_from_hit i f a (d ∷ ds) n c p q = ground (arith, scan_from_hit (suc i) f (suc a) ds n c.2)

  scan_from_miss :
      (i f a : ℕ) (ds : List (Diff K T)) (n : ℕ)
      → Chain a ds n
      → n ≤ f
      → scan_from f (enumerate i ds) ≡ finished
  unfolding scan_from enumerate
  scan_from_miss i f a [] n c p = refl
  scan_from_miss i f a (d ∷ ds) n c p =
      ground (arith, Chain-le (suc a) ds n c.2, scan_from_miss (suc i) f (suc a) ds n c.2)

  pub scan_from-enumerate :
      (f : ℕ) (ds : List (Diff K T)) (n : ℕ)
      → IsHistory ds n
      → (f < n) ⊎ (f ≡ 0)
      → scan_from f (enumerate 0 ds) ≡ break_at (start_of f)
  unfolding scan_from enumerate
  scan_from-enumerate f [] n h p = absurd h
  scan_from-enumerate zero (d ∷ ds) n h p = ground arith
  scan_from-enumerate (suc f) (d ∷ ds) n h p = ground (arith, scan_from_hit 1 (suc f) 0 ds n h.2)

  pub scan_from-enumerate_end :
      (f : ℕ) (ds : List (Diff K T)) (n : ℕ)
      → IsHistory ds n
      → n ≤ suc f
      → scan_from (suc f) (enumerate 0 ds) ≡ finished
  unfolding scan_from enumerate
  scan_from-enumerate_end f [] n h p = absurd h
  scan_from-enumerate_end f (d ∷ ds) n h p = ground (arith, scan_from_miss 1 (suc f) 0 ds n h.2)

  -- The last diff of a history starts one id before the current one.
  Chain-last :
      (d : Diff K T) (ds : List (Diff K T)) (a n : ℕ)
      → d.from_update_id ≡ a
      → Chain (suc a) ds n
      → (e : Diff K T) × (get_last? (d ∷ ds) ≡ some e) × (suc e.from_update_id ≡ n)
  Chain-last d [] a n p c = (d, refl, omega arith)
  Chain-last d (e ∷ ds) a n p c = Chain-last e ds (suc a) n c.0 c.2

  pub get_last-IsHistory :
      (ds : List (Diff K T)) (n : ℕ)
      → IsHistory ds n
      → (e : Diff K T) × (get_last? ds ≡ some e) × (e.from_update_id ≡ n - 1)
  get_last-IsHistory [] n h = absurd h
  get_last-IsHistory (d ∷ []) n h = (d, refl, omega arith)
  get_last-IsHistory (d ∷ e ∷ ds) n h =
      let (l, last, starts) = Chain-last e ds 0 n h.2.0 h.2.2 in (l, last, omega arith)

  scan_upto-append :
      (u : ℕ) (xs ys : List (ℕ × Diff K T))
      → scan_upto u (xs ++ ys) ≡ or_scan (scan_upto u xs) (scan_upto u ys)
  unfolding scan_upto
  scan_upto-append u [] ys = refl
  scan_upto-append u ((i, x) ∷ xs) ys = ground (arith, scan_upto-append u xs ys)

  -- The loop from the back, told from the front.
  scan_upto-reverse :
      (u i : ℕ) (d : Diff K T) (ds : List (Diff K T))
      → scan_upto u (reverse (enumerate i (d ∷ ds)))
        ≡ or_scan (scan_upto u (reverse (enumerate (suc i) ds))) (scan_upto u ((i, d) ∷ []))
  unfolding enumerate
  scan_upto-reverse u i d ds =
      ap (scan_upto u) (reverse-cons (i, d) (enumerate (suc i) ds))
      ∙ scan_upto-append u (reverse (enumerate (suc i) ds)) ((i, d) ∷ [])

  scan_upto-Chain :
      (u i a : ℕ) (ds : List (Diff K T)) (n : ℕ)
      → Chain a ds n
      → scan_upto u (reverse (enumerate i ds)) ≡ stop_at u i a n
  unfolding scan_upto enumerate
  scan_upto-Chain u i a [] n c = ground arith
  scan_upto-Chain u i a (d ∷ ds) n c =
      rw (scan_upto-reverse u i d ds, scan_upto-Chain u (suc i) (suc a) ds n c.2)
        (ground (arith, Chain-le (suc a) ds n c.2))

  pub scan_upto-IsHistory :
      (u : ℕ) (ds : List (Diff K T)) (n : ℕ)
      → IsHistory ds n
      → scan_upto u (reverse (enumerate 0 ds)) ≡ (if leb u n then break_at u else return_at n)
  unfolding scan_upto
  scan_upto-IsHistory u [] n h = absurd h
  scan_upto-IsHistory u (d ∷ ds) n h =
      rw (scan_upto-reverse u 0 d ds, scan_upto-Chain u 1 0 ds n h.2) (ground arith)
