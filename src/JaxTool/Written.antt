-- ===== src/JaxTool/Written.antt =====
-- What nftw_visit of utils/jax/create.c leaves in the archive.
use native.Mathlib.Nat.{mod-eq-sub-mod, mod-eq_of_lt, zero-mod}
use mathlib.Core.List.{append_assoc, append-nil}
use cenix.Base.{
  ℕ, zero, suc, ◌-◌, ◌%◌, ◌^◌, ◌≤◌, ◌<◌, false, ◌==◌, leb, ltb, if◌then◌else◌, List, [], ◌∷◌, ◌++◌,
  length, take, drop, arith, ◌≡◌, refl, ap, sym, ◌∙◌, none, some, Bool-cases, inl, inr, min,
  ==-refl,
}
use cenix.JaxTool.{
  Visit, DiskEntry, header, transfer, piece_size, copy_file, copy_link, nftw_visit, size_of,
  is_failure, write_contents,
}
use cenix.JaxTool.RoundTrip.{IsEntry}

take-drop : (n : ℕ) (xs : List ℕ) → take n xs ++ drop n xs ≡ xs
take-drop zero xs = refl
take-drop (suc n) [] = refl
take-drop (suc n) (x ∷ xs) = ap (λ t. x ∷ t) (take-drop n xs)

take_all : (n : ℕ) (xs : List ℕ) → length xs ≡ n → take n xs ≡ xs
take_all zero [] e = refl
take_all zero (x ∷ xs) e = absurd (omega arith)
take_all (suc n) [] e = absurd (omega arith)
take_all (suc n) (x ∷ xs) e = ap (λ t. x ∷ t) (take_all n xs (omega arith))

length-drop : (n : ℕ) (xs : List ℕ) → length (drop n xs) ≡ length xs - n
length-drop zero xs = omega arith
length-drop (suc n) [] = omega arith
length-drop (suc n) (x ∷ xs) = omega (arith, length-drop n xs)

-- The code that the loop ends with: 1 if a round finds nothing left.
abbrev pub copied : ℕ → ℕ → ℕ
copied bufsiz size = if size % bufsiz == 0 then 1 else 0

transfer-zero : (bytes : List ℕ) → transfer 0 bytes ≡ none
unfolding transfer
transfer-zero bytes = refl

transfer-some :
    (n : ℕ) (bytes : List ℕ)
    → 0 < n
    → n ≤ length bytes
    → transfer n bytes ≡ some (take n bytes, drop n bytes)
unfolding transfer
transfer-some n bytes p l = ground arith

piece_size-small : (bufsiz left : ℕ) → left ≤ bufsiz → piece_size bufsiz left ≡ left
unfolding piece_size
piece_size-small bufsiz left h = ground arith

piece_size-big : (bufsiz left : ℕ) → bufsiz ≤ left → piece_size bufsiz left ≡ bufsiz
unfolding piece_size
piece_size-big bufsiz left h = ground arith

copied-small : (bufsiz left : ℕ) → 0 < left → left < bufsiz → copied bufsiz left ≡ 0
copied-small bufsiz left p l = rw (mod-eq_of_lt l) (ground arith)

-- In any number of pieces, all the bytes are copied; but then the loop goes round once more, and
-- fails, exactly where the size is a multiple of BUFSIZ.
pub copy_file_lem :
    (bufsiz fuel left : ℕ) (bytes archive : List ℕ)
    → 0 < bufsiz
    → left < fuel
    → length bytes ≡ left
    → copy_file bufsiz fuel left bytes archive ≡ some (copied bufsiz left, archive ++ bytes)
unfolding copy_file
copy_file_lem bufsiz zero left bytes archive b h l = absurd (omega arith)
copy_file_lem bufsiz (suc fuel) zero [] archive b h l =
    rw (piece_size-small bufsiz 0 (omega arith), transfer-zero [], copy_file)
      (rw (zero-mod bufsiz, append-nil) refl)
copy_file_lem bufsiz (suc fuel) zero (x ∷ bytes) archive b h l = absurd (omega arith)
copy_file_lem bufsiz (suc fuel) (suc left) bytes archive b h l =
    elim (Bool-cases (ltb (suc left) bufsiz)) [
      | inl small ↦
          rw
            (
              piece_size-small bufsiz (suc left) (ground arith),
              transfer-some (suc left) bytes (omega arith) (omega arith),
              copy_file,
              small,
              copied-small bufsiz (suc left) (omega arith) (ground arith),
            )
            (rw (take_all (suc left) bytes l))
      | inr big ↦
          let le : bufsiz ≤ suc left = ground arith in
          let rest = drop bufsiz bytes in
          rw
            (
              piece_size-big bufsiz (suc left) le,
              transfer-some bufsiz bytes b (omega arith),
              copy_file,
              big,
              mod-eq-sub-mod le,
            )
            (copy_file_lem bufsiz fuel (suc left - bufsiz) rest (archive ++ take bufsiz bytes) b
                (omega arith) (omega (arith, length-drop bufsiz bytes))
              ∙ ap (λ t. some (copied bufsiz (suc left - bufsiz), t))
                  (append_assoc archive (take bufsiz bytes) rest
                    ∙ ap (λ t. archive ++ t) (take-drop bufsiz bytes)))
    ]

empty_of_length : (xs : List ℕ) → length xs ≡ 0 → xs ≡ []
empty_of_length [] e = refl
empty_of_length (x ∷ xs) e = absurd (omega arith)

copy_link_lem :
    (e : DiskEntry) (archive : List ℕ)
    → e.st_size ≡ length e.contents
    → length e.contents < 2 ^ 31
    → copy_link e archive ≡ (if length e.contents == 0 then 1 else 0, archive ++ e.contents)
unfolding copy_link
copy_link_lem e archive s small =
    let below : leb (2 ^ 63) (length e.contents) ≡ false = ground arith in
    let all : min (length e.contents) (length e.contents) ≡ length e.contents = omega arith in
    rw (s, all, below, ==-refl (length e.contents))
      (elim (Bool-cases (length e.contents == 0)) [
        | inl z ↦ rw z (rw (empty_of_length e.contents (ground arith), append-nil) refl)
        | inr nz ↦ rw nz (rw (take_all (length e.contents) e.contents refl) refl)
      ])

-- The code that nftw_visit ends with, by the size of the contents.
abbrev pub visit_result : Visit → ℕ → ℕ → ℕ
visit_result Visit.file bufsiz size = copied bufsiz size
visit_result Visit.link bufsiz size = if size == 0 then 1 else 0
visit_result _ bufsiz size = 0

write_contents_lem :
    (visit : Visit) (bufsiz fuel : ℕ) (e : DiskEntry) (archive : List ℕ)
    → size_of visit e.st_size ≡ length e.contents
    → length e.contents < 2 ^ 31
    → 0 < bufsiz
    → length e.contents < fuel
    → write_contents visit bufsiz fuel e archive
      ≡ some (
        if is_failure visit then 0 else visit_result visit bufsiz (length e.contents),
        archive ++ (if is_failure visit then [] else e.contents),
      )
unfolding write_contents
write_contents_lem Visit.file bufsiz fuel e archive s small b f =
    let below : leb (2 ^ 63) e.st_size ≡ false = ground (arith, s, small) in
    rw (below, s) (copy_file_lem bufsiz fuel (length e.contents) e.contents archive b f refl)
write_contents_lem Visit.link bufsiz fuel e archive s small b f =
    ap some (copy_link_lem e archive s small)
write_contents_lem Visit.directory bufsiz fuel e archive s small b f =
    rw (empty_of_length e.contents (sym s), append-nil) refl
write_contents_lem Visit.unreadable bufsiz fuel e archive s small b f = rw append-nil refl
write_contents_lem Visit.unknown bufsiz fuel e archive s small b f = rw append-nil refl

-- nftw_visit appends the header of a file and its contents to the archive, whatever the size of its
-- buffer; the code is 0 but for a file whose size is a multiple of BUFSIZ and an empty link, which
-- end the walk with the code 1.
pub nftw_visit-header :
    (bufsiz fuel : ℕ) (e : DiskEntry) (archive : List ℕ)
    → IsEntry e
    → 0 < bufsiz
    → length e.contents < fuel
    → nftw_visit bufsiz fuel e archive
      ≡ some (visit_result e.visit bufsiz (length e.contents), archive ++ (header e ++ e.contents))
unfolding nftw_visit
nftw_visit-header bufsiz fuel e archive v b f =
    let name : (length e.name % 2 ^ 16 == 0) ≡ false = ground (arith, v.name, v.named) in
    rw (v.visited, name)
      (write_contents_lem e.visit bufsiz fuel e (archive ++ header e) v.size v.small b f
        ∙ rw (v.visited) (
            ap (λ t. some (visit_result e.visit bufsiz (length e.contents), t))
              (append_assoc archive (header e) e.contents)))
