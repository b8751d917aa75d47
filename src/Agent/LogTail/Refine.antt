-- ===== src/Agent/LogTail/Refine.antt =====
-- The writer against its contract: the last `limit` bytes of all that was written.
use yokai.Prelude.{
  ℕ, zero, suc, ◌+◌, ◌-◌, ◌≡◌, ◌≤◌, refl, ap, sym, subst, ◌∙◌, Bool-cases, inl, inr, List, [], ◌∷◌,
  ◌++◌, pos, ltb, leb, eqb, length, drop, length-append, length-drop, arith,
}
use yokai.Agent.LogTail.{Bytes, Writer, new_writer, append_shifted, write, write_all}

-- All that a command wrote.
abbrev pub joined : List Bytes → Bytes
joined [] = []
joined (d ∷ ds) = d ++ joined ds

-- A writer that has been given `all`: it keeps the last bytes up to its limit, and says whether
-- any byte was lost.
pub record IsTailOf (all : Bytes) (w : Writer) : Type 0 where
  pub kept : w.buffer ≡ drop (length all - w.limit) all
  pub lost : w.truncated ≡ ltb w.limit (length all)

module _ {A : Type 0} where
  drop-append_left : (n : ℕ) (xs ys : List A) → n ≤ length xs → drop n (xs ++ ys) ≡ drop n xs ++ ys
  drop-append_left zero xs ys h = refl
  drop-append_left (suc n) [] ys h = absurd (omega arith)
  drop-append_left (suc n) (x ∷ xs) ys h = drop-append_left n xs ys (omega arith)

  drop-append_right :
      (n : ℕ) (xs ys : List A) → length xs ≤ n → drop n (xs ++ ys) ≡ drop (n - length xs) ys
  drop-append_right n [] ys h = ap (λ k. drop k ys) (omega arith)
  drop-append_right zero (x ∷ xs) ys h = absurd (omega arith)
  drop-append_right (suc n) (x ∷ xs) ys h =
      drop-append_right n xs ys (omega arith) ∙ ap (λ k. drop k ys) (omega arith)

  drop-nil : (n : ℕ) → drop {A = A} n [] ≡ []
  drop-nil zero = refl
  drop-nil (suc n) = refl

  drop-drop : (m n : ℕ) (xs : List A) → drop m (drop n xs) ≡ drop (n + m) xs
  drop-drop m zero xs = ap (λ k. drop k xs) (omega arith)
  drop-drop m (suc n) [] = drop-nil m ∙ sym (drop-nil (suc n + m))
  drop-drop m (suc n) (x ∷ xs) =
      let same : suc (n + m) ≡ suc n + m = omega arith in
      drop-drop m n xs ∙ ap (λ k. drop k (x ∷ xs)) same

  append_nil : (xs : List A) → xs ++ [] ≡ xs
  append_nil [] = refl
  append_nil (x ∷ xs) = ap (λ l. x ∷ l) (append_nil xs)

  append_assoc : (xs ys zs : List A) → (xs ++ ys) ++ zs ≡ xs ++ (ys ++ zs)
  append_assoc [] ys zs = refl
  append_assoc (x ∷ xs) ys zs = ap (λ l. x ∷ l) (append_assoc xs ys zs)

  drop-all : (n : ℕ) (xs : List A) → length xs ≤ n → drop n xs ≡ []
  drop-all n [] h = drop-nil n
  drop-all zero (x ∷ xs) h = absurd (omega arith)
  drop-all (suc n) (x ∷ xs) h = drop-all n xs (omega arith)

-- A buffer of the last bytes, with more bytes behind it, cut to the limit again.
shift-tail :
    (all d : Bytes) (limit : ℕ)
    → length d ≤ limit
    → drop
          (length (drop (length all - limit) all) + length d - limit)
          (drop (length all - limit) all)
        ++ d
      ≡ drop (length (all ++ d) - limit) (all ++ d)
shift-tail all d limit h =
    let gone = length all - limit in
    let measured : length (drop gone all) ≡ length all - gone = length-drop gone all in
    let more = length (drop gone all) + length d - limit in
    let same : gone + more ≡ length (all ++ d) - limit =
      omega (arith, measured, length-append all d) in
    let short : gone + more ≤ length all = omega (arith, measured) in
    ap (λ l. l ++ d) (drop-drop more gone all)
    ∙ sym (drop-append_left (gone + more) all d short)
    ∙ ap (λ n. drop n (all ++ d)) same

-- The same with a whole buffer that fits.
fit-tail :
    (all d : Bytes) (limit : ℕ)
    → length (drop (length all - limit) all) + length d ≤ limit
    → drop (length all - limit) all ++ d ≡ drop (length (all ++ d) - limit) (all ++ d)
fit-tail all d limit fits =
    let measured = length-drop (length all - limit) all in
    let same : length all - limit ≡ length (all ++ d) - limit =
      omega (arith, measured, length-append all d) in
    sym (drop-append_left (length all - limit) all d (omega arith))
    ∙ ap (λ n. drop n (all ++ d)) same

-- More bytes than the limit take the place of all.
refill-tail :
    (all d : Bytes) (limit : ℕ)
    → limit ≤ length d
    → drop (length d - limit) d ≡ drop (length (all ++ d) - limit) (all ++ d)
refill-tail all d limit h =
    let joined_length = length-append all d in
    ap (λ n. drop n d) (omega (arith, joined_length))
    ∙ sym (drop-append_right (length (all ++ d) - limit) all d (omega (arith, joined_length)))

-- A write of some bytes: the writer is as if the bytes had come with the others at once.
write-IsTailOf : (all d : Bytes) (w : Writer) → IsTailOf all w → IsTailOf (all ++ d) (write w d).0
unfolding write append_shifted
write-IsTailOf all d w tail =
    let joined_length = length-append all d in
    let measured = length-drop (length all - w.limit) all in
    let size : length w.buffer ≡ length all - (length all - w.limit) =
      ap length tail.kept ∙ measured in
    elim (Bool-cases (eqb w.limit 0)) [
      | inl e ↦ rw e (record {
        kept =
            tail.kept
            ∙ drop-all (length all - w.limit) all (ground (arith, e))
            ∙ sym (drop-all (length (all ++ d) - w.limit) (all ++ d) (ground (arith, e)));
        lost = ground (arith, e, tail.lost, joined_length);
      })
      | inr e ↦ rw e (elim (Bool-cases (leb w.limit (length d))) [
        | inl f ↦ rw f (record {
          kept = refill-tail all d w.limit (ground (arith, f));
          lost = ground (arith, e, f, tail.lost, joined_length, size);
        })
        | inr f ↦ rw f (elim (Bool-cases (ltb w.limit (length w.buffer + length d))) [
          | inl g ↦ rw g (record {
            kept =
                ap (λ l. drop (length l + length d - w.limit) l ++ d) tail.kept
                ∙ shift-tail all d w.limit (ground (arith, f));
            lost = ground (arith, g, joined_length, size);
          })
          | inr g ↦ rw g (record {
            kept =
                ap (λ l. l ++ d) tail.kept
                ∙ fit-tail all d w.limit (ground (arith, g, measured, size));
            lost = ground (arith, g, tail.lost, joined_length, size);
          })
        ])
      ])
    ]

write_all-IsTailOf :
    (all : Bytes) (ds : List Bytes) (w : Writer)
    → IsTailOf all w
    → IsTailOf (all ++ joined ds) (write_all w ds)
unfolding write_all
write_all-IsTailOf all [] w tail = subst (λ l. IsTailOf l w) (sym (append_nil all)) tail
write_all-IsTailOf all (d ∷ ds) w tail =
    subst (λ l. IsTailOf l (write_all (write w d).0 ds)) (append_assoc all d (joined ds))
      (write_all-IsTailOf (all ++ d) ds (write w d).0 (write-IsTailOf all d w tail))

limit-write : (w : Writer) (d : Bytes) → (write w d).0.limit ≡ w.limit
unfolding write append_shifted
limit-write w d = ground arith

limit-write_all : (w : Writer) (ds : List Bytes) → (write_all w ds).limit ≡ w.limit
unfolding write_all
limit-write_all w [] = refl
limit-write_all w (d ∷ ds) = limit-write_all (write w d).0 ds ∙ limit-write w d

-- However a command cuts its output into writes, a new writer of any limit keeps that limit and
-- holds exactly the last bytes of all the output, as many as the limit, and reports a truncation
-- exactly if the output was longer.
pub new_writer-IsTailOf :
    (n : ℕ) (ds : List Bytes)
    → ((write_all (new_writer (pos n)) ds).limit ≡ n)
      × IsTailOf (joined ds) (write_all (new_writer (pos n)) ds)
new_writer-IsTailOf n ds = (
  limit-write_all (new_writer (pos n)) ds,
  write_all-IsTailOf [] ds (new_writer (pos n))
      (record { kept = sym (drop-nil (0 - n)); lost = ground arith }),
)
