-- ===== src/LogFiles/Copies.antt =====
-- Which bytes of a file have been copied from its chunks, in plugins/log_files/log_files_impl.cpp.
use stealth_drone_purdue.Base.{
  ℕ, zero, suc, ◌+◌, ◌-◌, ◌/◌, ◌%◌, ◌≤◌, ◌<◌, ◌≡◌, refl, ◌∙◌, ap, ◌⊎◌, inl, inr, Bool, true, false,
  ◌&&◌, List, [], ◌∷◌, ◌++◌, none, arith, ltb, leb, ◌==◌, if◌then◌else◌, length, get_or, set,
  get_or-set, length-set, replicate, Bool-cases,
}
use stealth_drone_purdue.LogFiles.{
  LogFiles, LogData, LogDataMessage, chunk_size, copy, missing, num_chunks,
}

-- The bytes of the chunks received are those of the file.
abbrev pub IsCopy : List ℕ → LogData → Type 0
IsCopy file d =
    (length d.bytes ≡ length file)
    × (length d.chunks_received ≡ num_chunks (length file))
    × ((j : ℕ)
        → j < length file
        → get_or d.chunks_received (j / chunk_size) false ≡ true
        → get_or d.bytes j 0 ≡ get_or file j 0)

-- A message with one whole chunk of the file; the last may be shorter.
abbrev pub IsChunk : List ℕ → LogDataMessage → Type 0
IsChunk file m =
    (m.ofs % chunk_size ≡ 0)
    × (m.count ≤ chunk_size)
    × (m.ofs < length file)
    × (m.ofs + m.count ≤ length file)
    × ((m.count ≡ chunk_size) ⊎ (m.ofs + m.count ≡ length file))
    × ((k : ℕ) → k < m.count → get_or m.payload k 0 ≡ get_or file (m.ofs + k) 0)

pub length-copy :
    (ofs n : ℕ) (payload bytes : List ℕ) → length (copy ofs n payload bytes) ≡ length bytes
length-copy ofs zero payload bytes = refl
length-copy ofs (suc n) payload bytes =
    length-set (copy ofs n payload bytes) (ofs + n) (get_or payload n 0)
    ∙ length-copy ofs n payload bytes

get_or-copy :
    (ofs n : ℕ) (payload bytes : List ℕ) (j : ℕ)
    → ofs + n ≤ length bytes
    → get_or (copy ofs n payload bytes) j 0
      ≡ (if leb ofs j && ltb j (ofs + n) then get_or payload (j - ofs) 0 else get_or bytes j 0)
get_or-copy ofs zero payload bytes j h = ground arith
get_or-copy ofs (suc n) payload bytes j h = elim (Bool-cases ((ofs + n) == j)) [
  | inl e ↦
      let here : j - ofs ≡ n = ground arith in
      ground (
        arith,
        here,
        ap (λ (k : ℕ). get_or payload k 0) here,
        get_or-set (copy ofs n payload bytes) (ofs + n) j (get_or payload n 0) 0,
        length-copy ofs n payload bytes,
      )
  | inr e ↦ ground (
    arith,
    get_or-set (copy ofs n payload bytes) (ofs + n) j (get_or payload n 0) 0,
    get_or-copy ofs n payload bytes j,
  )
]

-- With no chunk missing, every chunk has been received.
missing-none :
    (i : ℕ) (chunks : List Bool) (k : ℕ)
    → (missing i chunks).0 ≡ none
    → k < length chunks
    → get_or chunks k false ≡ true
unfolding missing
missing-none i [] k h l = absurd (omega arith)
missing-none i (received ∷ chunks) zero h l = ground arith
missing-none i (received ∷ chunks) (suc k) h l =
    missing-none (i + 1) chunks k (ground arith) (omega arith)

-- Two lists of the same length with the same elements are equal.
list_ext :
    (xs ys : List ℕ)
    → length xs ≡ length ys
    → ((j : ℕ) → j < length ys → get_or xs j 0 ≡ get_or ys j 0)
    → xs ≡ ys
list_ext [] [] l h = refl
list_ext [] (y ∷ ys) l h = absurd (omega (arith, l))
list_ext (x ∷ xs) [] l h = absurd (omega (arith, l))
list_ext (x ∷ xs) (y ∷ ys) l h =
    cc (h 0 (omega arith), list_ext xs ys (omega arith) (λ j k. h (suc j) (omega arith)))

pub complete_lem :
    (file : List ℕ) (d : LogData)
    → IsCopy file d
    → (missing 0 d.chunks_received).0 ≡ none
    → d.bytes ≡ file
unfolding num_chunks
complete_lem file d (l, c, h) m =
    list_ext d.bytes file l
      (λ j k. h j k (missing-none 0 d.chunks_received (j / chunk_size) m (ground arith)))

-- A byte that the chunk does not hold is in another chunk.
other_chunk :
    (file : List ℕ) (m : LogDataMessage) (j : ℕ)
    → IsChunk file m
    → j < length file
    → (leb m.ofs j && ltb j (m.ofs + m.count)) ≡ false
    → (m.ofs / chunk_size == j / chunk_size) ≡ false
other_chunk file m j (at, small, inside, fits, inl whole, same) k out = ground arith
other_chunk file m j (at, small, inside, fits, inr whole, same) k out = ground arith

-- A chunk that comes in keeps the copy.
pub copy-IsCopy :
    (file : List ℕ) (m : LogDataMessage) (d : LogData)
    → IsChunk file m
    → IsCopy file d
    → (j : ℕ) → j < length file
    → get_or (set d.chunks_received (m.ofs / chunk_size) true) (j / chunk_size) false ≡ true
    → get_or (copy m.ofs m.count m.payload d.bytes) j 0 ≡ get_or file j 0
copy-IsCopy file m d chunk (l, c, h) j k received =
    let copied = get_or-copy m.ofs m.count m.payload d.bytes j (omega (arith, chunk.3, l)) in
    elim (Bool-cases (leb m.ofs j && ltb j (m.ofs + m.count))) [
      | inl e ↦
          let low : m.ofs ≤ j = ground arith in
          let high : j < m.ofs + m.count = ground arith in
          copied
          ∙ rw e (chunk.5 (j - m.ofs) (omega arith) ∙ ap (λ (x : ℕ). get_or file x 0) (omega arith))
      | inr e ↦
          let apart = other_chunk file m j chunk k e in
          copied
          ∙ rw e (
              h j k (
                ground (
                  arith,
                  get_or-set d.chunks_received (m.ofs / chunk_size) (j / chunk_size) true false,
                )))
    ]

pub chunk_inside :
    (file : List ℕ) (m : LogDataMessage) (d : LogData)
    → IsChunk file m
    → IsCopy file d
    → leb (length d.chunks_received) (m.ofs / chunk_size) ≡ false
unfolding num_chunks
chunk_inside file m d chunk c = ground (arith, chunk.2, c.1)

-- Only the file was written, perhaps several times.
abbrev Wrote : List ℕ → LogFiles → LogFiles → Type 0
Wrote file l l' = (n : ℕ) × (l'.written ≡ l.written ++ replicate n (l.log_data.file_path, file))

-- The copy, the file's path and the disk are as they were.
abbrev pub IsSame : LogFiles → LogFiles → Type 0
IsSame l l' =
    (l'.log_data.bytes ≡ l.log_data.bytes)
    × (l'.log_data.chunks_received ≡ l.log_data.chunks_received)
    × (l'.log_data.file_path ≡ l.log_data.file_path)
    × (l'.written ≡ l.written)

-- A step of the download: the copy stays one, and only the file is written.
abbrev pub Goes : List ℕ → LogFiles → LogFiles → Type 0
Goes file l l' =
    IsCopy file l'.log_data × (l'.log_data.file_path ≡ l.log_data.file_path) × Wrote file l l'
