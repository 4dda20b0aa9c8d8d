-- ===== src/Runner/Capped.antt =====
-- internal/runner/exec.go: the writer that keeps the first bytes of an output and drops the rest.
use aiofiles.Prelude.{
  ℕ, zero, suc, ◌-◌, false, ◌≡◌, refl, sym, ap, ◌∙◌, List, [], ◌∷◌, ◌++◌, if◌then◌else◌, ltb,
  length, take, concat, arith, Bool-cases, inl, inr,
}
use mathlib.Core.List.{append-nil, append_assoc}
use aiofiles.Prelude.Bytes.{Bytes}

pub record CapWriter : Type 0 where
  pub buf : Bytes
  pub max : ℕ

-- `capWriter.Write`: the writer, and the count it answers with; `take` is `p[:min(room, len(p))]`.
unfoldable pub write : CapWriter → Bytes → CapWriter × ℕ
write w p =
    let room = w.max - length w.buf in
    (if ltb 0 room then record w { buf = w.buf ++ take room p } else w, length p)

unfoldable pub write_all : CapWriter → List Bytes → CapWriter
unfolding write
write_all w [] = w
write_all w (p ∷ ps) = write_all (write w p).0 ps

-- What is kept of a text and of one behind it.
take-append : (n : ℕ) (l m : Bytes) → take n l ++ take (n - length (take n l)) m ≡ take n (l ++ m)
take-append zero l m = refl
take-append (suc n) [] m = ap (λ k. take k m) {x = suc n - 0} {y = suc n} (omega arith)
take-append (suc n) (c ∷ l) m =
    ap (λ k. c ∷ (take n l ++ take k m)) {y = n - length (take n l)} (omega arith)
    ∙ ap (λ x. c ∷ x) (take-append n l m)

no_room : (l m : Bytes) (k : ℕ) → ltb 0 k ≡ false → l ++ take k m ≡ l
no_room l m k h = ap (λ i. l ++ take i m) {x = k} {y = 0} (ground (arith, h)) ∙ append-nil l

-- One write keeps what is kept of everything written so far.
write-take :
    (w : CapWriter) (s p : Bytes) → w.buf ≡ take w.max s → (write w p).0.buf ≡ take w.max (s ++ p)
unfolding write
write-take w s p h = elim (Bool-cases (ltb 0 (w.max - length w.buf))) [
  | inl e ↦ rw e (ap (λ b. b ++ take (w.max - length b) p) h ∙ take-append w.max s p)
  | inr e ↦ rw e (
      sym (no_room w.buf p (w.max - length w.buf) e)
      ∙ ap (λ b. b ++ take (w.max - length b) p) h
      ∙ take-append w.max s p)
]

write-max : (w : CapWriter) (p : Bytes) → (write w p).0.max ≡ w.max
unfolding write
write-max w p = elim (Bool-cases (ltb 0 (w.max - length w.buf))) [
  | inl e ↦ rw e refl
  | inr e ↦ rw e refl
]

write_all-from :
    (w : CapWriter) (s : Bytes) (ps : List Bytes)
    → w.buf ≡ take w.max s
    → (write_all w ps).buf ≡ take w.max (s ++ concat ps)
unfolding write_all
write_all-from w s [] h = h ∙ ap (take w.max) (sym (append-nil s))
write_all-from w s (p ∷ ps) h =
    let v = (write w p).0 in
    let same = write-max w p in
    write_all-from v (s ++ p) ps (write-take w s p h ∙ ap (λ n. take n (s ++ p)) (sym same))
    ∙ ap (λ n. take n ((s ++ p) ++ concat ps)) same
    ∙ ap (take w.max) (append_assoc s p (concat ps))

take_nil : (n : ℕ) → take {A = ℕ} n [] ≡ []
take_nil zero = refl
take_nil (suc n) = refl

-- However the output is cut into writes, an empty writer keeps its first bytes, as many as it may.
pub write_all-take :
    (max : ℕ) (ps : List Bytes)
    → (write_all (record { buf = []; max = max }) ps).buf ≡ take max (concat ps)
write_all-take max ps = write_all-from (record { buf = []; max = max }) [] ps (sym (take_nil max))
