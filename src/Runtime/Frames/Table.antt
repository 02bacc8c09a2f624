-- ===== src/Runtime/Frames/Table.antt =====
-- The offset table of a frame: how it is written, and the parts that it gives back.
use executor_service.Common.{
  ℕ, ◌+◌, ◌-◌, ◌*◌, ◌≤◌, ◌≡◌, refl, sym, ap, ap₂, subst, ◌∙◌, true, false, not, ◌||◌, List, [], ◌∷◌,
  ◌++◌, arith, ltb, leb, ◌==◌, length, length-append, take-append, drop-append, slice, join, All,
}
use mathlib.Core.List.{append_assoc}
use executor_service.Common.Bytes.{
  le_bytes, le_value, packed, length-le_bytes, length-packed, IsWord, words-packed,
}
use executor_service.Action.{ok}
use executor_service.Action.Outcomes.{chained-eq-ok}
use executor_service.Runtime.Frames.{
  offsets_from, pack_q, pack_qs, frame_of, unpack_from, first, last, is_unordered, slices, v1_parts,
}

length-offsets_from :
    (o : ℕ) (parts : List (List ℕ)) → length (offsets_from o parts) ≡ length parts + 1
unfolding offsets_from
length-offsets_from o [] = omega arith
length-offsets_from o (p ∷ ps) = omega (arith, length-offsets_from (o + length p) ps)

first-offsets_from : (o : ℕ) (parts : List (List ℕ)) → first (offsets_from o parts) ≡ o
unfolding offsets_from
first-offsets_from o [] = refl
first-offsets_from o (p ∷ ps) = refl

last-offsets_from :
    (o : ℕ) (parts : List (List ℕ)) → last (offsets_from o parts) ≡ o + length (join parts)
unfolding offsets_from
last-offsets_from o [] = omega arith
last-offsets_from o (p ∷ []) = omega (arith, length-append p [])
last-offsets_from o (p ∷ q ∷ ps) =
    omega (arith, last-offsets_from (o + length p) (q ∷ ps), length-append p (join (q ∷ ps)))

offsets_from-ordered : (o : ℕ) (parts : List (List ℕ)) → is_unordered (offsets_from o parts) ≡ false
unfolding offsets_from is_unordered
offsets_from-ordered o [] = refl
offsets_from-ordered o (p ∷ []) = ground arith
offsets_from-ordered o (p ∷ q ∷ ps) = ground (arith, offsets_from-ordered (o + length p) (q ∷ ps))

pack_q-eq-ok : (n : ℕ) (bs : List ℕ) → pack_q n ≡ ok bs → IsWord n × (bs ≡ le_bytes 8 n)
unfolding pack_q
pack_q-eq-ok n bs h = ground arith

pack_qs-eq-ok : (ns bs : List ℕ) → pack_qs ns ≡ ok bs → All IsWord ns × (bs ≡ packed ns)
unfolding pack_qs packed
pack_qs-eq-ok [] bs h = (tt, cc)
pack_qs-eq-ok (n ∷ ns) bs h =
    let (b, eb, h') = chained-eq-ok (pack_q n) _ h in
    let (bs', ebs, e) = chained-eq-ok (pack_qs ns) _ h' in
    let (w, p) = pack_q-eq-ok n b eb in
    let (ws, ps) = pack_qs-eq-ok ns bs' ebs in
    let e' : bs ≡ b ++ bs' = cc in ((w, ws), e' ∙ ap₂ ◌++◌ p ps)

slice_middle :
    (front p rest : List ℕ)
    → slice (front ++ (p ++ rest)) (length front) (length front + length p) ≡ p
slice_middle front p rest =
    let e : length front + length p - length front ≡ length p = omega arith in
    rw (drop-append, e) (take-append p rest)

-- The parts stand between the offsets, whatever comes before them.
slices-offsets_from :
    (front : List ℕ) (parts : List (List ℕ))
    → slices (front ++ join parts) (offsets_from (length front) parts) ≡ parts
unfolding slices offsets_from
slices-offsets_from front [] = refl
slices-offsets_from front (p ∷ []) = ap (λ x. x ∷ []) (slice_middle front p [])
slices-offsets_from front (p ∷ q ∷ ps) = ap₂ ◌∷◌ (slice_middle front p (join (q ∷ ps))) (
    subst (λ n. slices (front ++ (p ++ join (q ∷ ps))) (offsets_from n (q ∷ ps)) ≡ q ∷ ps)
      (length-append front p)
      (subst (λ xs. slices xs (offsets_from (length (front ++ p)) (q ∷ ps)) ≡ q ∷ ps)
        (append_assoc front p (join (q ∷ ps))) (slices-offsets_from (front ++ p) (q ∷ ps))))

module _ (parts : List (List ℕ)) where
  abbrev count : ℕ
  count = length parts + 1

  abbrev table_end : ℕ
  table_end = 8 * (count + 1)

  abbrev table : List ℕ
  table = le_bytes 8 count ++ packed (offsets_from table_end parts)

  length-table : length table ≡ table_end
  length-table = rw length-append (
      omega (
        arith,
        length-le_bytes 8 count,
        length-packed (offsets_from table_end parts),
        length-offsets_from table_end parts,
      ))

  -- What `frame_of` builds.
  frame_of-eq-ok :
      (frame : List ℕ)
      → frame_of parts ≡ ok frame
      → (frame ≡ table ++ join parts) × IsWord count × All IsWord (offsets_from table_end parts)
  unfolding frame_of
  frame_of-eq-ok frame h =
      let (c, ec, h') = chained-eq-ok (pack_q count) _ h in
      let (os, eos, e) = chained-eq-ok (pack_qs (offsets_from table_end parts)) _ h' in
      let (w, p) = pack_q-eq-ok count c ec in
      let (ws, ps) = pack_qs-eq-ok (offsets_from table_end parts) os eos in
      let e' : frame ≡ c ++ (os ++ join parts) = cc in
      let shape : frame ≡ table ++ join parts =
        e'
        ∙ ap₂ (λ a b. a ++ (b ++ join parts)) p ps
        ∙ sym (
            append_assoc (le_bytes 8 count) (packed (offsets_from table_end parts)) (join parts)) in
      (shape, w, ws)

  length-frame : length (table ++ join parts) ≡ table_end + length (join parts)
  length-frame =
      length-append table (join parts) ∙ ap (λ (n : ℕ). n + length (join parts)) length-table

  unpack-count : IsWord count → unpack_from le_value 8 1 (table ++ join parts) 0 ≡ ok (count ∷ [])
  unfolding unpack_from packed le_bytes
  unpack-count w =
      let long : leb 8 (length (table ++ join parts)) ≡ true = ground (arith, length-frame) in
      rw long (
        ap ok
          (words-packed (count ∷ []) (packed (offsets_from table_end parts) ++ join parts) (w, tt)))

  unpack-offsets :
      All IsWord (offsets_from table_end parts)
      → unpack_from le_value 8 count (table ++ join parts) 8 ≡ ok (offsets_from table_end parts)
  unfolding unpack_from le_bytes
  unpack-offsets ws =
      let long : leb (8 + 8 * count) (length (table ++ join parts)) ≡ true =
        ground (arith, length-frame) in
      rw long (
        ap ok (
          rw (length-offsets_from table_end parts) at
            (words-packed (offsets_from table_end parts) (join parts) ws)))

  -- If a frame is made of five to 999 parts, then it is split into those parts.
  pub v1_parts-frame_of :
      (frame : List ℕ)
      → 5 ≤ length parts
      → length parts ≤ 999
      → frame_of parts ≡ ok frame
      → v1_parts frame ≡ ok parts
  unfolding v1_parts
  v1_parts-frame_of frame lo hi h =
      let (shape, w, ws) = frame_of-eq-ok frame h in
      let tall : ltb (length (table ++ join parts)) 56 ≡ false = ground (arith, length-frame) in
      let wide : ltb (length (table ++ join parts)) table_end ≡ false =
        ground (arith, length-frame) in
      let counted : ltb count 6 || ltb 1000 count ≡ false = ground arith in
      let ends : not (first (offsets_from table_end parts) == table_end)
            || not (last (offsets_from table_end parts) == length (table ++ join parts))
          ≡ false =
        ground (
          arith,
          first-offsets_from table_end parts,
          last-offsets_from table_end parts,
          length-frame,
        ) in
      rw
        (
          shape,
          tall,
          unpack-count w,
          counted,
          wide,
          unpack-offsets ws,
          ends,
          offsets_from-ordered table_end parts,
        )
        (ap ok (rw length-table at (slices-offsets_from table parts)))
