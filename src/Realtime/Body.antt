-- ===== src/Realtime/Body.antt =====
-- src/backend/runtime/realtime-stream.ts: `readEventBody`, the bounded read of a request's body into
-- a buffer that grows.
use mathlib.Core.Option
use yurucommu_core.Base.{
  JsString, ℕ, zero, suc, ◌+◌, ◌*◌, ◌≤◌, min, max, false, Option, none, some, List, [], ◌∷◌, ◌++◌,
  ◌≡◌, ◌∙◌, ap, refl, sym, arith, inl, inr, if◌then◌else◌, get_or_else, ltb, ltb→lt, append-nil,
  length, take, drop, length-append, length-take, length-drop, append_assoc, Bool-cases,
}

abbrev pub max_realtime_event_bytes : ℕ
max_realtime_event_bytes = 1024 * 1024

-- `new Uint8Array(n)`
unfoldable pub zeros : ℕ → List ℕ
zeros zero = []
zeros (suc n) = 0 ∷ zeros n

-- The bytes with a value written over them.
abbrev overwritten : List ℕ → List ℕ → ℕ → List ℕ
overwritten bytes value at_ = take at_ bytes ++ (value ++ drop (at_ + length value) bytes)

-- `bytes.set(value, at)`, which throws where the value does not fit.
unfoldable pub set : List ℕ → List ℕ → ℕ → Option (List ℕ)
set bytes value at_ =
    if ltb (length bytes) (at_ + length value) then none else some (overwritten bytes value at_)

-- `bytes.subarray(0, size)`
abbrev pub subarray : ℕ → List ℕ → List ℕ
subarray size bytes = take size bytes

-- The bytes of the chunks, the answer 413, or a thrown RangeError.
pub data Collected : Type 0 where
  refused out_of_range : Collected
  collected : List ℕ → Collected

-- A text, the answer 413, or a thrown error.
pub data EventBody : Type 0 where
  too_large thrown : EventBody
  text : JsString → EventBody

-- The buffer, made larger for `next_size` bytes if need be.
unfoldable pub grow : List ℕ → ℕ → ℕ → Option (List ℕ)
grow bytes size next_size =
    if ltb (length bytes) next_size
    then set (zeros (min max_realtime_event_bytes (max next_size (length bytes * 2))))
        (subarray size bytes) 0
    else some bytes

-- The loop over the chunks that the reader gives.
unfoldable pub read_chunks : List (List ℕ) → List ℕ → ℕ → Collected
read_chunks [] bytes size = collected (subarray size bytes)
read_chunks (value ∷ chunks) bytes size =
    let next_size = size + length value in
    let buffer = grow bytes size next_size in
    let stored = Option.bind buffer (λ room. set room value size) in
    if ltb max_realtime_event_bytes next_size
    then refused
    else elim stored [ none ↦ out_of_range | some bytes' ↦ read_chunks chunks bytes' next_size ]

-- The decoder, which throws on bytes that are no UTF-8.
unfoldable pub decoded : (List ℕ → Option JsString) → List ℕ → EventBody
decoded decode bytes = elim (decode bytes) [ none ↦ thrown | some t ↦ text t ]

-- `content_length` is the number that the header spells; a body that is null reads as empty.
-- `decode` is the decode of a fatal TextDecoder.
unfoldable pub read_event_body :
    (List ℕ → Option JsString) → Option ℕ → Option (List (List ℕ)) → EventBody
read_event_body decode content_length body = declared content_length
  where
    stream : Option (List (List ℕ)) → EventBody
    stream none = text []
    stream (some chunks) = elim (read_chunks chunks (zeros 4096) 0) [
      | refused ↦ too_large
      | out_of_range ↦ thrown
      | collected bytes ↦ decoded decode bytes
    ]

    declared : Option ℕ → EventBody
    declared none = stream body
    declared (some n) = if ltb max_realtime_event_bytes n then too_large else stream body

-- All chunks one after another.
unfoldable pub concat : List (List ℕ) → List ℕ
concat [] = []
concat (value ∷ chunks) = value ++ concat chunks

length-zeros : (n : ℕ) → length (zeros n) ≡ n
unfolding zeros
length-zeros zero = refl
length-zeros (suc n) = omega (arith, length-zeros n)

take-length : (xs ys : List ℕ) → take (length xs) (xs ++ ys) ≡ xs
take-length [] ys = refl
take-length (x ∷ xs) ys = rw (take-length xs ys) refl

take-exact : (n : ℕ) (xs ys : List ℕ) → n ≡ length xs → take n (xs ++ ys) ≡ xs
take-exact n xs ys e = rw e (take-length xs ys)

-- A write at the end of what is there extends it, and keeps the size of the buffer if it fits.
overwritten-extends :
    (bytes value : List ℕ) (size : ℕ)
    → size + length value ≤ length bytes
    → (take (size + length value) (overwritten bytes value size) ≡ take size bytes ++ value)
      × (length (overwritten bytes value size) ≡ length bytes)
overwritten-extends bytes value size h = (
  rw (← append_assoc (take size bytes) value (drop (size + length value) bytes)) (
      take-exact (size + length value) (take size bytes ++ value) (drop (size + length value) bytes)
        (sym front)),
  omega (
    arith,
    length-append (take size bytes) (value ++ drop (size + length value) bytes),
    length-append value (drop (size + length value) bytes),
    length-take size bytes,
    length-drop (size + length value) bytes,
  ),
)
  where
    front : length (take size bytes ++ value) ≡ size + length value
    front = omega (arith, length-append (take size bytes) value, length-take size bytes)

copied_prefix :
    (target bytes : List ℕ) (size : ℕ)
    → size ≤ length bytes
    → size ≤ length target
    → (take size (overwritten target (take size bytes) 0) ≡ take size bytes)
      × (length (overwritten target (take size bytes) 0) ≡ length target)
copied_prefix target bytes size h k =
    let n : 0 + length (take size bytes) ≡ size = omega (arith, length-take size bytes) in
    let e = overwritten-extends target (take size bytes) 0 (omega (arith, n)) in
    (sym (ap (λ k. take k (overwritten target (take size bytes) 0)) n) ∙ e.0, e.1)

-- The larger buffer fits what was there and what is to come, is bounded, and starts with what was
-- there.
grow-room :
    (bytes : List ℕ) (size next_size : ℕ)
    → size ≤ length bytes
    → size ≤ next_size
    → length bytes ≤ max_realtime_event_bytes
    → next_size ≤ max_realtime_event_bytes
    → (room : List ℕ) × (grow bytes size next_size ≡ some room)
      × (next_size ≤ length room)
      × (length room ≤ max_realtime_event_bytes)
      × (take size room ≡ take size bytes)
unfolding grow set
grow-room bytes size next_size h k small bound = elim (Bool-cases (ltb (length bytes) next_size)) [
  | inr fits ↦ (bytes, rw fits refl, ground arith, small, refl)
  | inl short ↦ (
    overwritten (zeros capacity) (take size bytes) 0,
    rw short (ground (arith, fresh, length-take size bytes)),
    omega (arith, copied.1, fresh, ltb→lt (length bytes) next_size short),
    omega (arith, copied.1, fresh),
    copied.0,
  )
]
  where
    capacity : ℕ
    capacity = min max_realtime_event_bytes (max next_size (length bytes * 2))

    fresh : length (zeros capacity) ≡ capacity
    fresh = length-zeros capacity

    copied :
        (take size (overwritten (zeros capacity) (take size bytes) 0) ≡ take size bytes)
        × (length (overwritten (zeros capacity) (take size bytes) 0) ≡ length (zeros capacity))
    copied = copied_prefix (zeros capacity) bytes size h (omega (arith, fresh))

-- The read, from any state of the buffer: the chunks in their order, or the refusal.
read_chunks-concat :
    (chunks : List (List ℕ)) (bytes : List ℕ) (size : ℕ)
    → size ≤ length bytes
    → length bytes ≤ max_realtime_event_bytes
    → read_chunks chunks bytes size ≡ (
        if ltb max_realtime_event_bytes (size + length (concat chunks))
        then refused
        else collected (take size bytes ++ concat chunks))
unfolding read_chunks concat set Option.bind
read_chunks-concat [] bytes size h small = ground (arith, append-nil (take size bytes))
read_chunks-concat (value ∷ chunks) bytes size h small =
    elim (Bool-cases (ltb max_realtime_event_bytes (size + length value))) [
      | inl over ↦ rw over (ground (arith, length-append value (concat chunks)))
      | inr fits ↦
          let (room, e, enough, bounded, same) =
            grow-room bytes size (size + length value) h (omega arith) small (ground arith) in
          let ext = overwritten-extends room value size enough in
          let r =
            read_chunks-concat chunks (overwritten room value size) (size + length value)
              (omega (arith, ext.1)) (omega (arith, ext.1)) in
          let taken : ltb (length room) (size + length value) ≡ false = ground arith in
          rw (fits, e, taken, r)
            (ground (
              arith,
              ext.0,
              same,
              append_assoc (take size bytes) value (concat chunks),
              length-append value (concat chunks),
            ))
    ]

whole_read :
    (chunks : List (List ℕ))
    → read_chunks chunks (zeros 4096) 0 ≡ (
        if ltb max_realtime_event_bytes (length (concat chunks))
        then refused
        else collected (concat chunks))
whole_read chunks =
    let k =
      read_chunks-concat chunks (zeros 4096) 0 (omega arith) (omega (arith, length-zeros 4096)) in
    ground (arith, k)

-- For any declared length of at most 2 ^ 20, the read refuses the body as too large exactly if its
-- chunks have more than 2 ^ 20 bytes together, and otherwise gives what the decoder makes of all of
-- the chunks in their order, its error included, however the reader cuts the body into chunks: the
-- growing buffer never throws.
pub read_event_body-concat :
    (decode : List ℕ → Option JsString) (content_length : Option ℕ) (chunks : List (List ℕ))
    → ltb max_realtime_event_bytes (get_or_else content_length 0) ≡ false
    → read_event_body decode content_length (some chunks) ≡ (
        if ltb max_realtime_event_bytes (length (concat chunks))
        then too_large
        else decoded decode (concat chunks))
unfolding read_event_body
read_event_body-concat decode none chunks small = ground (arith, whole_read chunks)
read_event_body-concat decode (some n) chunks small = ground (arith, whole_read chunks)
