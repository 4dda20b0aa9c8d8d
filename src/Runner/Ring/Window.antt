-- ===== src/Runner/Ring/Window.antt =====
-- The ring holds the last lines, as many as it has room for.
use aiofiles.Prelude.{
  ℕ, zero, suc, ◌+◌, ◌-◌, ◌%◌, ◌≤◌, ◌<◌, Bool, true, false, ◌≡◌, refl, ap, sym, ◌∙◌, List, [], ◌∷◌,
  ◌++◌, ◌⊎◌, if◌then◌else◌, length, take, drop, set, last_of, length-append, arith, inl, inr,
}
use native.Mathlib.Decide.{dec_le}
use mathlib.Core.List.{append_assoc, append-nil}
use native.Mathlib.Nat.{mod-eq_of_lt}
use aiofiles.Prelude.Slices.{
  drop-length, length-drop, length-take, length-set, take-set, drop-set, take_all, last_of_short,
  last_of-append, last_of-rotate,
}
use aiofiles.Prelude.Bytes.{Bytes, trim_right_by}
use aiofiles.Runner.Ring.{
  Ring, blanks, new_ring, is_blank, store_line, clip_line, add_trimmed, add, lines_of, join_lines,
  ring_text, max_stderr_bytes,
}

-- The buffer has its size, and the next slot is one of them.
record IsValid (r : Ring) : Type 0 where
  pub sized : length r.buf ≡ r.limit
  pub within : r.next < r.limit

length-blanks : (n : ℕ) → length (blanks n) ≡ n
length-blanks zero = refl
length-blanks (suc n) = ap suc (length-blanks n)

new_ring-IsValid : (n : ℕ) → IsValid (new_ring n)
unfolding new_ring
new_ring-IsValid n = ground (arith, length-blanks n, length-blanks 1)

next_slot :
    (n limit : ℕ)
    → n < limit
    → ((suc n ≡ limit) × (suc n % limit ≡ 0)) ⊎ ((suc n < limit) × (suc n % limit ≡ suc n))
next_slot n limit h = elim (dec_le limit (suc n)) [
  | yes e ↦ inl (omega arith, grind arith)
  | no e ↦ inr (omega arith, mod-eq_of_lt (omega arith))
]

abbrev ring : List Bytes → ℕ → Bool → ℕ → Ring
ring buf next full limit = record { buf = buf; next = next; full = full; limit = limit }

module _ (buf : List Bytes) (next limit : ℕ) (line : Bytes) (sized : length buf ≡ limit)
    (within : next < limit) where
  -- The lines after a write, whether or not the next slot is the first again.
  written : (full : Bool) → List Bytes
  written full = (if full then drop (suc next) buf else []) ++ (take next buf ++ line ∷ [])

  store_line-wraps :
      (full : Bool)
      → suc next ≡ limit
      → suc next % limit ≡ 0
      → lines_of (store_line line (ring buf next full limit)) ≡ written full
  unfolding store_line lines_of written
  store_line-wraps full e z =
      let whole =
        append-nil (set buf next line)
        ∙ sym (take_all (suc next) (set buf next line) (omega (arith, length-set buf next line)))
        ∙ take-set buf next line (omega arith) in
      let gone : drop (suc next) buf ≡ [] =
        ap (λ k. drop k buf) {x = suc next} {y = length buf} (omega arith) ∙ drop-length buf in
      rw z (whole ∙ none_in_front full gone)
    where
      none_in_front :
          (full : Bool) {gone : List Bytes}
          → gone ≡ []
          → take next buf ++ line ∷ [] ≡ (if full then gone else []) ++ (take next buf ++ line ∷ [])
      none_in_front true e = rw e refl
      none_in_front false e = refl

  store_line-moves :
      (full : Bool)
      → suc next < limit
      → suc next % limit ≡ suc next
      → lines_of (store_line line (ring buf next full limit)) ≡ written full
  unfolding store_line lines_of written
  store_line-moves full h e =
      ground (arith, take-set buf next line (omega arith), drop-set buf next line)

  written_last :
      (full : Bool)
      → written full ≡ last_of limit (lines_of (ring buf next full limit) ++ line ∷ [])
  unfolding written lines_of
  written_last true =
      sym (last_of-rotate next buf line (omega arith))
      ∙ ap (λ k. last_of k ((drop next buf ++ take next buf) ++ line ∷ [])) sized
  written_last false = sym (
      last_of_short limit (take next buf ++ line ∷ []) (
        omega
          (arith, length-append (take next buf) (line ∷ []), length-take next buf (omega arith))))

  store_line-lines :
      (full : Bool)
      → lines_of (store_line line (ring buf next full limit))
        ≡ last_of limit (lines_of (ring buf next full limit) ++ line ∷ [])
  store_line-lines full = elim (next_slot next limit within) [
    | inl (e, z) ↦ store_line-wraps full e z ∙ written_last full
    | inr (h, e) ↦ store_line-moves full h e ∙ written_last full
  ]

  store_line-IsValid : (full : Bool) → IsValid (store_line line (ring buf next full limit))
  unfolding store_line
  store_line-IsValid full = elim (next_slot next limit within) [
    | inl (e, z) ↦ ground (arith, length-set buf next line)
    | inr (h, e) ↦ ground (arith, length-set buf next line)
  ]

-- What `add` keeps of the lines: those that are not blank, without the blanks at their ends, and cut.
abbrev kept_line : (Bytes → Bytes) → Bytes → List Bytes
kept_line valid [] = []
kept_line valid (c ∷ l) = clip_line valid (c ∷ l) ∷ []

unfoldable pub kept_lines : (Bytes → Bytes) → List Bytes → List Bytes
unfolding trim_right_by
kept_lines valid [] = []
kept_lines valid (l ∷ ls) = kept_line valid (trim_right_by is_blank l) ++ kept_lines valid ls

unfoldable pub add_all : (Bytes → Bytes) → List Bytes → Ring → Ring
unfolding add
add_all valid [] r = r
add_all valid (l ∷ ls) r = add_all valid ls (add valid l r)

add_trimmed-lines :
    (valid : Bytes → Bytes) (l : Bytes) (r : Ring)
    → IsValid r
    → length (lines_of r) ≤ r.limit
    → (lines_of (add_trimmed valid l r) ≡ last_of r.limit (lines_of r ++ kept_line valid l))
      × IsValid (add_trimmed valid l r)
      × ((add_trimmed valid l r).limit ≡ r.limit)
unfolding add_trimmed
add_trimmed-lines valid [] r v h = (
  sym (ap (last_of r.limit) (append-nil (lines_of r)) ∙ last_of_short r.limit (lines_of r) h),
  v,
  refl,
)
add_trimmed-lines valid (c ∷ l) r v h =
    let line = clip_line valid (c ∷ l) in
    (
      store_line-lines r.buf r.next r.limit line v.sized v.within r.full,
      store_line-IsValid r.buf r.next r.limit line v.sized v.within r.full,
      unfold store_line in refl,
    )

length-last_of-le : (n : ℕ) (l : List Bytes) → length (last_of n l) ≤ n
length-last_of-le n l = omega (arith, length-drop (length l - n) l)

add_all-lines :
    (valid : Bytes → Bytes) (ls : List Bytes) (r : Ring)
    → IsValid r
    → length (lines_of r) ≤ r.limit
    → lines_of (add_all valid ls r) ≡ last_of r.limit (lines_of r ++ kept_lines valid ls)
unfolding add_all add kept_lines
add_all-lines valid [] r v h =
    sym (ap (last_of r.limit) (append-nil (lines_of r)) ∙ last_of_short r.limit (lines_of r) h)
add_all-lines valid (l ∷ ls) r v h =
    let t = trim_right_by is_blank l in
    let (e, v', same) = add_trimmed-lines valid t r v h in
    add_all-lines valid ls (add_trimmed valid t r) v'
      (rw (e, same) (length-last_of-le r.limit (lines_of r ++ kept_line valid t)))
    ∙ ap (λ n. last_of n (lines_of (add_trimmed valid t r) ++ kept_lines valid ls)) same
    ∙ ap (λ m. last_of r.limit (m ++ kept_lines valid ls)) e
    ∙ last_of-append r.limit (lines_of r ++ kept_line valid t) (kept_lines valid ls)
    ∙ ap (last_of r.limit) (append_assoc (lines_of r) (kept_line valid t) (kept_lines valid ls))

new_ring-limit : (n : ℕ) → (new_ring (suc n)).limit ≡ suc n
unfolding new_ring
new_ring-limit n = ground arith

new_ring-lines : (n : ℕ) → lines_of (new_ring n) ≡ []
unfolding new_ring lines_of
new_ring-lines n = refl

length-ring_text-le :
    (valid : Bytes → Bytes) (r : Ring)
    → ((s : Bytes) → length (valid s) ≤ length s)
    → length (ring_text valid r) ≤ max_stderr_bytes + 3
unfolding ring_text
length-ring_text-le valid r shrinks =
    let s = join_lines (lines_of r) in
    let cut = drop (length s - max_stderr_bytes) s in
    ground (arith, shrinks cut, length-drop (length s - max_stderr_bytes) s)

-- However many lines a process writes to its error stream, the ring holds the last ones that are not
-- blank, as many as it was made for, in their order; and the text made of them has at most 4096 bytes behind
-- an ellipsis, if the removal of broken characters makes no text longer.
pub add_all-Window :
    (valid : Bytes → Bytes) (n : ℕ) (ls : List Bytes)
    → ((s : Bytes) → length (valid s) ≤ length s)
    → (lines_of (add_all valid ls (new_ring (suc n))) ≡ last_of (suc n) (kept_lines valid ls))
      × (length (ring_text valid (add_all valid ls (new_ring (suc n)))) ≤ max_stderr_bytes + 3)
add_all-Window valid n ls shrinks =
    let r = new_ring (suc n) in
    (
      add_all-lines valid ls r (new_ring-IsValid (suc n))
            (omega (arith, ap length (new_ring-lines (suc n))))
          ∙ ap (λ l. last_of r.limit (l ++ kept_lines valid ls)) (new_ring-lines (suc n))
          ∙ ap (λ k. last_of k (kept_lines valid ls)) (new_ring-limit n),
      length-ring_text-le valid (add_all valid ls r) shrinks,
    )
