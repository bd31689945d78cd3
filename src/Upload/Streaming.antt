-- ===== src/Upload/Streaming.antt =====
-- The size limit that is enforced while an upload is read.
use safe_cloud.Prelude.{
  ℕ, List, [], ◌∷◌, ◌++◌, Bool-cases, inl, inr, ltb, length, is_empty, if◌then◌else◌, ◌≡◌, ◌↔◌, ◌≤◌,
  ◌<◌, ◌+◌, sym, arith,
}
use mathlib.Core.List.{append-nil, append_assoc}
use safe_cloud.Upload.{staged, close_stream, write_chunks, stream_upload_to_staging}

-- The bytes of an upload: the reads' results up to the first empty one.
abbrev pub body_of : List (List ℕ) → List ℕ
body_of [] = []
body_of (chunk ∷ chunks) = let rest = body_of chunks in if is_empty chunk then [] else chunk ++ rest

length-append : (xs ys : List ℕ) → length (xs ++ ys) ≡ length xs + length ys
length-append [] ys = omega arith
length-append (x ∷ xs) ys = ground (arith, length-append xs ys)

close_stream-staged_iff :
    (written content : List ℕ)
    → (close_stream written ≡ staged content) ↔ ((content ≡ written) × (0 < length written))
unfolding close_stream
close_stream-staged_iff [] content = ground arith
close_stream-staged_iff (x ∷ written) content = ground arith

write_chunks-staged_iff :
    (max_size : ℕ) (written content : List ℕ) (chunks : List (List ℕ))
    → length written ≤ max_size
    → (write_chunks max_size written chunks ≡ staged content) ↔ (
        (content ≡ written ++ body_of chunks)
        × (0 < length (written ++ body_of chunks))
        × (length (written ++ body_of chunks) ≤ max_size))
unfolding write_chunks
write_chunks-staged_iff max_size written content [] l =
    rw (append-nil written) (ground (arith, close_stream-staged_iff written content))
write_chunks-staged_iff max_size written content ([] ∷ chunks) l =
    rw (append-nil written) (ground (arith, close_stream-staged_iff written content))
write_chunks-staged_iff max_size written content ((b ∷ bs) ∷ chunks) l =
    elim (Bool-cases (ltb max_size (length (written ++ (b ∷ bs))))) [
      | inl big ↦ rw big (
          ground (
            arith,
            length-append written (b ∷ bs),
            length-append written (b ∷ (bs ++ body_of chunks)),
            length-append bs (body_of chunks),
          ))
      | inr small ↦
          rw (small, sym (append_assoc written (b ∷ bs) (body_of chunks)))
            (write_chunks-staged_iff max_size (written ++ (b ∷ bs)) content chunks (ground arith))
    ]

-- An upload is staged exactly if its bytes, the reads' results up to the first empty one, are not empty and no more than the limit, and then what is staged is those bytes, all and in order: stopping in the middle of the stream refuses the same uploads as measuring the whole.
pub stream_upload_to_staging-staged_iff :
    (max_size : ℕ) (content : List ℕ) (chunks : List (List ℕ))
    → (stream_upload_to_staging max_size chunks ≡ staged content)
      ↔ ((content ≡ body_of chunks) × (0 < length content) × (length content ≤ max_size))
unfolding stream_upload_to_staging
stream_upload_to_staging-staged_iff max_size content chunks =
    ground (arith, write_chunks-staged_iff max_size [] content chunks (omega arith))
